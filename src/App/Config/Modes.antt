-- ===== src/App/Config/Modes.antt =====
-- The usage message, or the one transport that the configuration asks for.
use mcpwatch.Base.{◌≡◌, ◌≢◌, ◌↔◌, true, none, some, arith}
use mcpwatch.App.Config.{
  Config, Transport, stdio, proxy, ebpf, socket, wants_wrap, wants_proxy, wants_pid, wants_socket,
  runs, select,
}

module _ {F : Type 0} where
  -- The configuration has the settings of this transport, and they are not empty.
  abbrev pub Wants : Config F → Transport → Type 0
  Wants c (stdio cmd) = (wants_wrap c ≡ true) × (cmd ≡ c.wrap_cmd)
  Wants c (proxy url port) = (wants_proxy c ≡ true) × (url ≡ c.proxy_url) × (port ≡ c.proxy_port)
  Wants c (ebpf pid) = (wants_pid c ≡ true) × (pid ≡ c.pid)
  Wants c (socket from to) =
      (wants_socket c ≡ true) × (from ≡ c.socket_local) × (to ≡ c.socket_target)

  select-Wants : (c : Config F) (t : Transport) → select c ≡ runs (some t) → Wants c t
  unfolding select
  select-Wants c (stdio cmd) e = ground arith
  select-Wants c (proxy url port) e = ground arith
  select-Wants c (ebpf pid) e = ground arith
  select-Wants c (socket from to) e = ground arith

  select_only : (c : Config F) (t u : Transport) → select c ≡ runs (some t) → Wants c u → u ≡ t
  unfolding select
  select_only c t (stdio cmd) e w = ground arith
  select_only c t (proxy url port) e w = ground arith
  select_only c t (ebpf pid) e w = ground arith
  select_only c t (socket from to) e w = ground arith

  abbrev pub Only : Config F → Transport → Type 0
  Only c t = (u : Transport) → Wants c u → u ≡ t

  -- Each transport that could be wanted, made from the settings.
  runs-Only : (c : Config F) (t : Transport) → Wants c t → Only c t → select c ≡ runs (some t)
  unfolding select
  runs-Only c (stdio cmd) w only = ground (
    arith,
    only (proxy c.proxy_url c.proxy_port),
    only (ebpf c.pid),
    only (socket c.socket_local c.socket_target),
  )
  runs-Only c (proxy url port) w only = ground (
    arith,
    only (stdio c.wrap_cmd),
    only (ebpf c.pid),
    only (socket c.socket_local c.socket_target),
  )
  runs-Only c (ebpf pid) w only = ground (
    arith,
    only (stdio c.wrap_cmd),
    only (proxy c.proxy_url c.proxy_port),
    only (socket c.socket_local c.socket_target),
  )
  runs-Only c (socket from to) w only =
      ground
        (arith, only (stdio c.wrap_cmd), only (proxy c.proxy_url c.proxy_port), only (ebpf c.pid))

  select-ne-none : (c : Config F) → select c ≢ runs none
  unfolding select
  select-ne-none c = λ e. ground arith

  -- The program runs with a transport exactly if the configuration asks for that one and no other,
  -- and never runs with none.
  pub select-runs :
      (c : Config F)
      → (select c ≢ runs none)
        × ((t : Transport) → (select c ≡ runs (some t)) ↔ (Wants c t × Only c t))
  select-runs c = (
    select-ne-none c,
    λ t. (λ e. (select-Wants c t e, λ u. select_only c t u e), λ h. runs-Only c t h.0 h.1),
  )
