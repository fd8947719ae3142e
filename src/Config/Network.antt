-- ===== src/Config/Network.antt =====
-- The checks of ports, addresses, TLS and tokens in internal/config/validate.go.
use api_x.Base.{
  Text, str, is_blank, Bool, true, false, ◌&&◌, ◌||◌, not, Option, none, some, List, [], ◌∷◌, ◌++◌,
  if◌then◌else◌,
}
use api_x.Base.Int.{ℤ, pos, leb_ℤ}
use api_x.Base.Strings.{text_eq, trim_space}
use api_x.Config.{
  Config, Machine, Problem, must_be_set, not_a_number, out_of_range, in_use, invalid, missing_file,
  too_open, needs, report, is_none,
}

abbrev pub is_port : ℤ → Bool
is_port n = leb_ℤ (pos 1) n && leb_ℤ n (pos 65535)

abbrev named_port : Text → Option ℤ → List Problem × ℤ
named_port field none = (not_a_number field ∷ [], pos 0)
named_port field (some n) = (report (not (is_port n)) (out_of_range field), n)

-- `validateNamedPort`: the problems, and the port
unfoldable pub validate_named_port : Machine → Text → Text → List Problem × ℤ
validate_named_port m field value =
    if is_blank value then (must_be_set field ∷ [], pos 0) else named_port field (m.atoi value)

-- `validatePorts`
unfoldable pub validate_ports : Machine → Bool → Config → List Problem
unfolding validate_named_port text_eq
validate_ports m allow_bound_ports c =
    let (http, http_port) = validate_named_port m (str "http_port") c.http_port in
    let (grpc, grpc_port) = validate_named_port m (str "grpc_port") c.grpc_port in
    http
    ++ grpc
    ++ (if c.mcp_enabled then (validate_named_port m (str "mcp_port") c.mcp_port).0 else [])
    ++ report (not allow_bound_ports && is_port http_port && not (m.port_free c.http_port))
        (in_use (str "http_port"))
    ++ report (not allow_bound_ports && is_port grpc_port && not (m.port_free c.grpc_port))
        (in_use (str "grpc_port"))
    ++ report
        (not (is_blank c.grpc_bind_address)
          && is_none (m.parse_ip c.grpc_bind_address)
          && not (text_eq c.grpc_bind_address (str "localhost")))
        (invalid (str "grpc_bind_address"))
    ++ report
        (c.mcp_enabled
          && not allow_bound_ports
          && not (is_blank c.mcp_port)
          && not (is_none (m.atoi c.mcp_port))
          && not (m.port_free c.mcp_port))
        (in_use (str "mcp_port"))

abbrev pub remote_unless_loopback : Option Bool → Bool
remote_unless_loopback none = true
remote_unless_loopback (some loopback) = not loopback

-- `grpcBindRequiresRemoteSecurity`
unfoldable pub grpc_bind_requires_remote_security : Machine → Text → Bool
unfolding text_eq
grpc_bind_requires_remote_security m addr =
    if is_blank addr || text_eq addr (str "localhost")
    then false
    else remote_unless_loopback (m.parse_ip addr)

-- `isLoopbackHost`
unfoldable pub is_loopback_host : Machine → Text → Bool
unfolding text_eq
is_loopback_host m host =
    if is_blank host || text_eq host (str "localhost")
    then true
    else not (remote_unless_loopback (m.parse_ip host))

-- `validateTLSAndAuth`
unfoldable pub validate_tls_and_auth : Machine → Config → List Problem
unfolding trim_space grpc_bind_requires_remote_security is_loopback_host
validate_tls_and_auth m c =
    let tls = c.tls_enabled in
    let no_token = is_blank c.auth_token in
    let remote_grpc = grpc_bind_requires_remote_security m c.grpc_bind_address in
    let remote_mcp = c.mcp_enabled && not (is_loopback_host m c.mcp_bind_address) in
    let no_cert = is_blank c.grpc_cert_path in
    let no_key = is_blank c.grpc_key_path in
    report (not (is_blank (trim_space c.auth_token_file)) && m.missing c.auth_token_file)
      (missing_file (str "auth_token_file"))
    ++ report
        (c.auth_token_require_strict_perms && c.auth_token_set_in_config_file
          && c.config_perms_too_open)
        (too_open (str "auth_token"))
    ++ report (tls && no_token) (needs (str "tls_enabled") (str "auth_token"))
    ++ report (tls && no_cert) (needs (str "tls_enabled") (str "grpc_cert_path"))
    ++ report (tls && not no_cert && m.missing c.grpc_cert_path)
        (missing_file (str "grpc_cert_path"))
    ++ report (tls && no_key) (needs (str "tls_enabled") (str "grpc_key_path"))
    ++ report (tls && not no_key && m.missing c.grpc_key_path) (missing_file (str "grpc_key_path"))
    ++ report
        (tls
          && not no_cert
          && not no_key
          && not (m.key_pair_loads c.grpc_cert_path c.grpc_key_path))
        (invalid (str "grpc_cert_path"))
    ++ report (remote_grpc && not tls) (needs (str "grpc_bind_address") (str "tls_enabled"))
    ++ report (remote_grpc && no_token) (needs (str "grpc_bind_address") (str "auth_token"))
    ++ report (c.mcp_allow_replay && not c.mcp_enabled)
        (needs (str "mcp_allow_replay") (str "mcp_enabled"))
    ++ report (c.mcp_allow_compose && not c.mcp_enabled)
        (needs (str "mcp_allow_compose") (str "mcp_enabled"))
    ++ report (remote_mcp && not tls) (needs (str "mcp_bind_address") (str "tls_enabled"))
    ++ report (remote_mcp && no_token) (needs (str "mcp_bind_address") (str "auth_token"))
