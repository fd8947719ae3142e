-- ===== src/Config/Loaded.antt =====
-- What the loading of internal/config/config.go gives, with and without a file, and to the checks of
-- internal/config/validate.go.
use api_x.Base.{
  Text, str, is_blank, Bool, true, false, ◌&&◌, not, none, some, [], ◌∷◌, if◌then◌else◌, ◌≡◌, refl,
  sym, ◌∙◌, ap, arith, Bool-cases, inl, inr,
}
use api_x.Base.Int.{pos}
use api_x.Config.{Config, Machine}
use api_x.Config.Accepting.{Accepted}
use api_x.Config.Checking.{validate}
use api_x.Config.Network.{grpc_bind_requires_remote_security}
use api_x.Config.Loading.{Sources, defaults, env_token, after_parsing, load_config}
use api_x.Header.Laws.{false_of_not}
use api_x.Regex.{RegexLib}

blank_token :
    (t : Text)
    → (if is_blank t then defaults else record defaults { auth_token = t })
      ≡ record defaults { auth_token = t }
blank_token [] = refl
blank_token (c ∷ t) = refl

module _ (s : Sources) where
  parsed_loads :
      (path file : Text) (c : Config)
      → s.read_file path ≡ some file
      → s.unmarshal file defaults ≡ (c, true)
      → load_config s path ≡ after_parsing s path c
  unfolding load_config
  parsed_loads path file c read parsed = rw (load_config, read, parsed) refl

  unparsed_loads :
      (path file : Text) (c : Config)
      → s.read_file path ≡ some file
      → s.unmarshal file defaults ≡ (c, false)
      → load_config s path ≡ c
  unfolding load_config
  unparsed_loads path file c read failed = rw (load_config, read, failed) refl

  after_parsing_token :
      (path : Text) (c : Config)
      → is_blank (env_token s) ≡ false
      → (after_parsing s path c).auth_token ≡ env_token s
  unfolding after_parsing
  after_parsing_token path c set = ground arith

  after_parsing_bind :
      (path : Text) (c : Config)
      → is_blank c.grpc_bind_address ≡ true
      → (after_parsing s path c).grpc_bind_address ≡ (
          if (after_parsing s path c).tls_enabled
            && not (is_blank (after_parsing s path c).auth_token)
          then str "0.0.0.0"
          else str "127.0.0.1")
  unfolding after_parsing
  after_parsing_bind path c blank = ground arith

  loopback_needs_nothing :
      (m : Machine)
      → m.parse_ip (str "127.0.0.1") ≡ some true
      → grpc_bind_requires_remote_security m (str "127.0.0.1") ≡ false
  unfolding grpc_bind_requires_remote_security
  loopback_needs_nothing m loopback = rw (loopback) refl

  open_if_secured :
      (m : Machine) (tls token : Bool)
      → m.parse_ip (str "127.0.0.1") ≡ some true
      → grpc_bind_requires_remote_security m
          (if tls && token then str "0.0.0.0" else str "127.0.0.1")
        ≡ true
      → (tls ≡ true) × (token ≡ true)
  open_if_secured m true true loopback remote = (refl, refl)
  open_if_secured m true false loopback remote =
      (refl, sym (loopback_needs_nothing m loopback) ∙ remote)
  open_if_secured m false token loopback remote = let n = loopback_needs_nothing m loopback in cc

  -- A token in the environment is the token of the loaded configuration if the file parses. If it does not,
  -- the token is what the failed parsing has left, and the environment is not looked at.
  pub env_token_missed :
      (path file : Text)
      → s.read_file path ≡ some file
      → is_blank (env_token s) ≡ false
      → (load_config s path).auth_token ≡ (
          if (s.unmarshal file defaults).1
          then env_token s
          else (s.unmarshal file defaults).0.auth_token)
  env_token_missed path file read set = elim (Bool-cases (s.unmarshal file defaults).1) [
    | inl parsed ↦
        rw
          (
            parsed,
            parsed_loads path file (s.unmarshal file defaults).0 read
                (ap (λ b. ((s.unmarshal file defaults).0, b)) parsed),
          )
          (after_parsing_token path _ set)
    | inr failed ↦
        rw
          (
            failed,
            unparsed_loads path file (s.unmarshal file defaults).0 read
                (ap (λ b. ((s.unmarshal file defaults).0, b)) failed),
          )
          refl
  ]

  -- The address of the gRPC server that a file leaves blank is open to other hosts only with TLS and a
  -- token.
  pub blank_address_is_secured :
      (m : Machine) (path file : Text) (c : Config)
      → s.read_file path ≡ some file
      → s.unmarshal file defaults ≡ (c, true)
      → is_blank c.grpc_bind_address ≡ true
      → m.parse_ip (str "127.0.0.1") ≡ some true
      → grpc_bind_requires_remote_security m (load_config s path).grpc_bind_address ≡ true
      → ((load_config s path).tls_enabled ≡ true)
        × (is_blank (load_config s path).auth_token ≡ false)
  blank_address_is_secured m path file c read parsed blank loopback remote =
      let c' = after_parsing s path c in
      let e : load_config s path ≡ c' = parsed_loads path file c read parsed in
      let remote' = rw (e, after_parsing_bind path c blank) at remote in
      let (tls, token) =
        open_if_secured m c'.tls_enabled (not (is_blank c'.auth_token)) loopback remote' in
      rw (e) (tls, false_of_not (is_blank c'.auth_token) token)

  unread_loads :
      (path : Text)
      → s.read_file path ≡ none
      → load_config s path ≡ record defaults { auth_token = env_token s }
  unfolding load_config
  unread_loads path missing = rw (load_config, missing) (blank_token (env_token s))

  defaults_pass :
      (lib : RegexLib) (m : Machine) (a : Bool) (t : Text)
      → m.atoi (str "8080") ≡ some (pos 8080)
      → m.atoi (str "9090") ≡ some (pos 9090)
      → m.parse_ip (str "127.0.0.1") ≡ some true
      → m.port_free (str "8080") ≡ true
      → m.port_free (str "9090") ≡ true
      → Accepted lib m a (record defaults { auth_token = t })
  unfolding validate
  defaults_pass lib m true t http grpc loopback free free' = rw (http, grpc, loopback) refl
  defaults_pass lib m false t http grpc loopback free free' =
      rw (http, grpc, loopback, free, free') refl

  -- Without a file the loaded configuration passes every check, when its two ports are free, whatever the
  -- environment holds.
  pub defaults_accepted :
      (lib : RegexLib) (m : Machine) (a : Bool) (path : Text)
      → s.read_file path ≡ none
      → m.atoi (str "8080") ≡ some (pos 8080)
      → m.atoi (str "9090") ≡ some (pos 9090)
      → m.parse_ip (str "127.0.0.1") ≡ some true
      → m.port_free (str "8080") ≡ true
      → m.port_free (str "9090") ≡ true
      → Accepted lib m a (load_config s path)
  defaults_accepted lib m a path missing http grpc loopback free free' =
      rw (unread_loads path missing)
        (defaults_pass lib m a (env_token s) http grpc loopback free free')
