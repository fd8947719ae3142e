-- ===== src/Config/Accepting.antt =====
-- What a configuration that internal/config/validate.go accepts gives to the rest of the program.
use api_x.Base.{
  Option, ap, str, some, inl, inr, Text, is_blank, Bool, true, false, ◌&&◌, not, none, List, [],
  ◌∷◌, ◌++◌, ◌≡◌, ◌≢◌, refl, ◌⊎◌, ◌↔◌, arith, length, ltb,
}
use api_x.Base.Int.{pos}
use api_x.Base.Strings.{text_eq}
use api_x.Config.{Config, Machine, Problem, report, apply_validation_defaults}
use api_x.Config.Checking.{validate}
use api_x.Config.Network.{
  validate_ports, validate_named_port, validate_tls_and_auth, grpc_bind_requires_remote_security,
  is_loopback_host, remote_unless_loopback,
}
use api_x.Config.Values.{
  validate_database, validate_connection_pool, validate_plugin_paths, validate_contract_paths,
  validate_url_patterns, validate_logging, validate_map_local_rules,
}
use api_x.Header.{Header}
use api_x.Proxy.Limits.{RequestLimits, validate_inbound_request, read_limited_body}
use api_x.Proxy.Http.{handle_http}
use api_x.Proxy.MapLocal.{Files}
use api_x.Proxy.Pipeline
use api_x.Proxy.Services.{Services}
use api_x.Proxy.Transaction.{Inbound, ensure_request_id, refused}
use api_x.Regex.{RegexLib}

append_none : {A : Type 0} (xs ys : List A) → xs ++ ys ≡ [] → (xs ≡ []) × (ys ≡ [])
append_none [] ys h = (refl, h)
append_none (x ∷ xs) ys h = absurd (ground arith)

report_none : (b : Bool) (p : Problem) → report b p ≡ [] → b ≡ false
report_none b p h = ground arith

-- The limits on requests that the proxy reads.
abbrev pub limits_of : Config → RequestLimits
limits_of c = record {
  max_url_length = c.max_url_length;
  max_header_value_bytes = c.max_header_value_bytes;
  max_total_header_bytes = c.max_total_header_bytes;
  max_headers_per_request = c.max_headers_per_request;
}

-- An address by name that is beyond loopback: not blank, not `localhost`, and no loopback address.
abbrev pub IsRemote : Machine → Text → Type 0
IsRemote m addr =
    (is_blank addr ≡ false)
    × (text_eq addr (str "localhost") ≡ false)
    × (m.parse_ip addr ≢ some true)

beyond_loopback : (ip : Option Bool) → ip ≢ some true → remote_unless_loopback ip ≡ true
beyond_loopback none h = refl
beyond_loopback (some true) h = absurd (h refl)
beyond_loopback (some false) h = refl

remote_grpc :
    (m : Machine) (addr : Text) → IsRemote m addr → grpc_bind_requires_remote_security m addr ≡ true
unfolding grpc_bind_requires_remote_security
remote_grpc m addr (named, other, beyond) =
    rw (named, other) (beyond_loopback (m.parse_ip addr) beyond)

remote_mcp : (m : Machine) (addr : Text) → IsRemote m addr → is_loopback_host m addr ≡ false
unfolding is_loopback_host
remote_mcp m addr (named, other, beyond) =
    rw (named, other) (ap not (beyond_loopback (m.parse_ip addr) beyond))

module _ (lib : RegexLib) (m : Machine) where
  abbrev pub Accepted : Bool → Config → Type 0
  Accepted allow_bound_ports c = (validate lib m allow_bound_ports c).1 ≡ []

  -- The sections of the checks that the properties below read.
  sections :
      (a : Bool) (c : Config)
      → Accepted a c
      → (validate_ports m a (apply_validation_defaults c) ≡ [])
        × (validate_connection_pool (apply_validation_defaults c) ≡ [])
        × (validate_tls_and_auth m (apply_validation_defaults c) ≡ [])
  unfolding validate
  sections a c h =
      let h8 =
        (append_none _
          (validate_map_local_rules lib 0 (apply_validation_defaults c).map_local_rules) h).0 in
      let h7 = (append_none _ (validate_logging (apply_validation_defaults c)) h8).0 in
      let h6 = (append_none _ (validate_url_patterns lib (apply_validation_defaults c)) h7).0 in
      let h5 = (append_none _ (validate_contract_paths m (apply_validation_defaults c)) h6).0 in
      let h4 = (append_none _ (validate_plugin_paths m (apply_validation_defaults c)) h5).0 in
      let (h3, tls) = append_none _ (validate_tls_and_auth m (apply_validation_defaults c)) h4 in
      let (h2, pool) = append_none _ (validate_connection_pool (apply_validation_defaults c)) h3 in
      let (ports, db) = append_none _ (validate_database (apply_validation_defaults c)) h2 in
      (ports, pool, tls)

  secured :
      (c : Config)
      → validate_tls_and_auth m c ≡ []
      → (grpc_bind_requires_remote_security m c.grpc_bind_address ≡ true)
        ⊎ ((c.mcp_enabled ≡ true) × (is_loopback_host m c.mcp_bind_address ≡ false))
      → (c.tls_enabled ≡ true)
        × (is_blank c.auth_token ≡ false)
        × (m.key_pair_loads c.grpc_cert_path c.grpc_key_path ≡ true)
  unfolding validate_tls_and_auth
  secured c h remote = ground arith

  -- An accepted configuration that gives the gRPC server, or an enabled MCP server, an address that is not
  -- blank, not localhost and no loopback address has TLS enabled with a key pair that loads, and a token.
  pub remote_is_secured :
      (a : Bool) (c : Config)
      → Accepted a c
      → IsRemote m c.grpc_bind_address ⊎ ((c.mcp_enabled ≡ true) × IsRemote m c.mcp_bind_address)
      → (c.tls_enabled ≡ true)
        × (is_blank c.auth_token ≡ false)
        × (m.key_pair_loads c.grpc_cert_path c.grpc_key_path ≡ true)
  unfolding apply_validation_defaults
  remote_is_secured a c h (inl grpc) =
      let (ports, pool, tls) = sections a c h in
      secured (apply_validation_defaults c) tls (inl (remote_grpc m c.grpc_bind_address grpc))
  remote_is_secured a c h (inr (enabled, mcp)) =
      let (ports, pool, tls) = sections a c h in
      secured (apply_validation_defaults c) tls (inr (enabled, remote_mcp m c.mcp_bind_address mcp))

  -- The checks accept zero for the length of a URL as they accept its default, and with it the proxy looks
  -- at no length of a URL.
  zero_switches_off :
      (a : Bool) (c : Config) (url url' : Text) (h : Header)
      → Accepted a (record c { max_url_length = pos 8192 })
      → Accepted a (record c { max_url_length = pos 0 })
        × (validate_inbound_request (limits_of (record c { max_url_length = pos 0 })) url h
            ≡ validate_inbound_request (limits_of (record c { max_url_length = pos 0 })) url' h)
  unfolding validate apply_validation_defaults validate_inbound_request
  zero_switches_off a c url url' h ok = (ok, refl)

  ports_iff :
      (c : Config)
      → validate_ports m false c ≡ []
        ↔ (validate_ports m true c ≡ [])
          × (m.port_free c.http_port ≡ true)
          × (m.port_free c.grpc_port ≡ true)
          × ((c.mcp_enabled && not (m.port_free c.mcp_port)) ≡ false)
  unfolding validate_ports validate_named_port
  ports_iff c = (λ h. ground arith, λ h. ground arith)

  swap : {A : Type 0} (xs xs' ys : List A) → (xs ≡ [] → xs' ≡ []) → xs ++ ys ≡ [] → xs' ++ ys ≡ []
  swap xs xs' ys f h = let (e, e') = append_none xs ys h in rw (f e, e')

  keeps :
      (a b : Bool) (c : Config)
      → (validate_ports m a (apply_validation_defaults c) ≡ []
          → validate_ports m b (apply_validation_defaults c) ≡ [])
      → Accepted a c
      → Accepted b c
  unfolding validate
  keeps a b c f =
      let d = apply_validation_defaults c in
      swap _ _ (validate_map_local_rules lib 0 d.map_local_rules) (
        swap _ _ (validate_logging d) (
          swap _ _ (validate_url_patterns lib d) (
            swap _ _ (validate_contract_paths m d) (
              swap _ _ (validate_plugin_paths m d) (
                swap _ _ (validate_tls_and_auth m d)
                  (swap _ _ (validate_connection_pool d) (swap _ _ (validate_database d) f)))))))

  -- Validate accepts exactly the configurations that ValidateRuntime accepts and whose ports are free: that
  -- of the proxy, that of the gRPC server, and that of the MCP server if it is enabled.
  pub validate_iff :
      (c : Config)
      → Accepted false c
        ↔ Accepted true c
          × (m.port_free c.http_port ≡ true)
          × (m.port_free c.grpc_port ≡ true)
          × ((c.mcp_enabled && not (m.port_free c.mcp_port)) ≡ false)
  unfolding apply_validation_defaults
  validate_iff c =
      let d = apply_validation_defaults c in
      (
        λ h.
            (let (ports, pool, tls) = sections false c h in
              let (runtime, http, grpc, mcp) = (ports_iff d).0 ports in
              (keeps false true c (λ _. runtime) h, http, grpc, mcp)),
        λ (h, http, grpc, mcp).
            let (ports, pool, tls) = sections true c h in
            keeps true false c (λ _. (ports_iff d).1 (ports, http, grpc, mcp)) h,
      )

blank_limit : (body : Text) → is_blank body ≡ false → ltb 0 (length body) ≡ true
blank_limit body h = ground arith

-- The checks have no more to say on a limit on bodies of zero than on one of one megabyte, and with it the
-- proxy refuses every request with a body that is within the other limits.
pub zero_limit_refuses :
    {S : Type 0} (lib : RegexLib) (files : Files) (c : Config) (cfg : Pipeline.Config)
    (svc : Services S) (fresh : Text) (inb : Inbound) (s : S)
    → cfg.max_body_size_mb ≡ 0
    → validate_inbound_request cfg.limits inb.url.text (ensure_request_id fresh inb.header).1 ≡ none
    → is_blank inb.body ≡ false
    → (validate_connection_pool (record c { max_body_size_mb = pos 0 })
        ≡ validate_connection_pool (record c { max_body_size_mb = pos 1 }))
      × (handle_http lib files cfg svc fresh inb s ≡ refused 413 s)
unfolding handle_http read_limited_body validate_connection_pool
zero_limit_refuses lib files c cfg svc fresh inb s zero valid nonempty =
    (refl, rw (valid, zero, blank_limit inb.body nonempty))
