-- ===== src/App/Start/Runs.antt =====
-- What a program serves that has come as far as its loop.
use mcpwatch.Base.{
  ℕ, ◌≡◌, ◌≢◌, ◌↔◌, refl, sym, ap, ◌∙◌, Bool, true, false, not, ◌&&◌, Option, none, some, [], ◌∷◌,
  Bytes, if◌then◌else◌, arith,
}
use mcpwatch.Base.Float.{Float64}
use mcpwatch.App.Config.{Config, given, Transport, Start, usage, runs, select}
use mcpwatch.App.Config.Modes.{select-runs}
use mcpwatch.App.Start.{Running, server_of, alerter_of, running_of, with_transport, start_main}
use mcpwatch.App.Tracing.{Tracing}
use mcpwatch.Server.Http.{
  Request, Response, route, is_guarded, matches, admits, unauthorized, handle, serve,
}
use mcpwatch.Storage.Api.{StoreApi}

-- Both credentials are configured.
abbrev pub protects : {F : Type 0} → Config F → Bool
protects c = given c.auth_user && given c.auth_pass

-- The request has the credentials of the configuration.
abbrev pub knows : {F : Type 0} → Config F → Request → Bool
knows c q =
    matches (record { auth_username = c.auth_user; auth_password = c.auth_pass }) q.credentials

given-none :
    {A : Type 0} (x : Bytes) (a : A) → ((if given x then some a else none) ≡ none) ↔ (x ≡ [])
given-none [] a = (λ e. refl, λ e. refl)
given-none (b ∷ x) a = (λ e. absurd cc, λ e. absurd cc)

admits-server_of :
    {F : Type 0} (c : Config F) (q : Request)
    → admits (server_of c) q ≡ (if protects c then knows c q else true)
unfolding admits
admits-server_of c q = ground arith

module _ (fl : Float64) where
  open fl use {F}

  with_transport-some :
      (c : Config F) (t : Tracing) (opens : Bool) (s : Start) (r : Running fl)
      → (with_transport fl c t opens s).running ≡ some r
      → (tr : Option Transport) × (s ≡ runs tr) × (r ≡ running_of fl c tr)
  with_transport-some c t opens usage r e = absurd cc
  with_transport-some c t true (runs tr) r e =
      (tr, refl, ap (λ o. elim o [ none ↦ r | some x ↦ x ]) (sym e))
  with_transport-some c t false (runs tr) r e = absurd cc

  alerter_of-none : (c : Config F) → (alerter_of fl c ≡ none) ↔ (c.alert_webhook ≡ [])
  alerter_of-none c = given-none c.alert_webhook _

  module _ {Statistics : Type 0} (api : StoreApi Statistics) (format : ℕ → Bytes) where
    open api use {S}

    -- On the way from a request to its handler.
    abbrev pub guarded_handle : Config F → Request → S → Response Statistics × S
    guarded_handle c q st =
        if is_guarded (route q.verb q.path) && (protects c && not (knows c q))
        then (unauthorized, st)
        else handle api format (route q.verb q.path) q st

    serve-server_of :
        (c : Config F) (q : Request) (st : S)
        → serve api format (server_of c) q st ≡ guarded_handle c q st
    unfolding serve
    serve-server_of c q st =
        ap
          (λ b.
            (if is_guarded (route q.verb q.path) && not b
              then (unauthorized, st)
              else handle api format (route q.verb q.path) q st))
          (admits-server_of c q)
        ∙ both (protects c)
      where
        both :
            (b : Bool)
            → (if is_guarded (route q.verb q.path) && not (if b then knows c q else true)
                then (unauthorized, st)
                else handle api format (route q.verb q.path) q st)
              ≡ (if is_guarded (route q.verb q.path) && (b && not (knows c q))
                  then (unauthorized, st)
                  else handle api format (route q.verb q.path) q st)
        both true = refl
        both false = refl

    -- A program that has come as far as its loop has a transport, and an alerter exactly if a
    -- webhook is configured. Its dashboard refuses a request exactly if the path is guarded, both
    -- credentials are configured and the request has others or none: where one of the two is
    -- missing, everything is open.
    pub start_main-serves :
        (c : Config F) (t : Tracing) (opens : Bool) (r : Running fl) (q : Request) (st : S)
        → (start_main fl c t opens).running ≡ some r
        → (serve api format r.server q st ≡ guarded_handle c q st)
          × (r.transport ≢ none)
          × ((r.alerter ≡ none) ↔ (c.alert_webhook ≡ []))
    unfolding start_main
    start_main-serves c t opens r q st e =
        let (tr, chosen, made) = with_transport-some c t opens (select c) r e in
        let alerts = alerter_of-none c in
        (
          ap (λ x. serve api format x.server q st) made ∙ serve-server_of c q st,
          λ missing.
              (select-runs c).0 (chosen ∙ ap runs (sym (ap (λ x. x.transport) made) ∙ missing)),
          (
            λ quiet. alerts.0 (sym (ap (λ x. x.alerter) made) ∙ quiet),
            λ empty. ap (λ x. x.alerter) made ∙ alerts.1 empty,
          ),
        )
