-- ===== src/App/Config/Precedence.antt =====
-- What becomes of a configuration file that asks for the socket mode.
use mcpwatch.Base.{◌≡◌, refl, Bool, false, Bytes, arith}
use mcpwatch.App.Config.{
  Config, decoded, Loaded, loaded, load, Start, usage, select, wants_wrap, wants_proxy, wants_pid,
  wants_socket,
}

module _ {F : Type 0} (above_zero : F → Bool) (explicit : Bytes → Bool) where
  abbrev pub NoMode : Config F → Type 0
  NoMode c = (wants_wrap c ≡ false) × (wants_proxy c ≡ false) × (wants_pid c ≡ false)

  -- What `main` does with the loaded configuration.
  abbrev pub begin : Loaded F → Start
  begin (loaded c) = select c
  begin (Loaded.exits n) = usage

  -- The configuration with these two socket paths.
  abbrev pub with_sockets : Bytes → Bytes → Config F → Config F
  with_sockets local target c = record c { socket_local = local; socket_target = target }

  -- The socket paths of a file have no effect. Where neither the file nor the flags ask for another
  -- mode and the flags do not give both socket paths, the program prints the usage message, whatever
  -- two socket paths the file gives.
  pub begin-socket_file :
      (flags file : Config F) (local target : Bytes)
      → NoMode flags
      → wants_socket flags ≡ false
      → NoMode file
      → let socket_file = with_sockets local target file in
        (load above_zero explicit flags (decoded socket_file)
          ≡ load above_zero explicit flags (decoded file))
        × (begin (load above_zero explicit flags (decoded socket_file)) ≡ usage)
  unfolding load select
  begin-socket_file flags file local target h k g = (refl, ground arith)
