-- ===== src/Config/Examples.antt =====
-- The checks of a configuration at concrete values, and the theorems of this folder applied to them.
use api_x.Base.{ℕ, Text, str, is_blank, Bool, true, false, none, some, [], ◌∷◌, ◌≡◌, refl, inl}
use api_x.Base.Int.{pos}
use api_x.Base.Strings.{contains, text_eq}
use api_x.Config.{Config, Machine}
use api_x.Config.Accepting.{remote_is_secured, zero_limit_refuses, Accepted, limits_of}
use api_x.Config.Checking.{validate}
use api_x.Config.Values.{validate_connection_pool}
use api_x.Header.{Header}
use api_x.Proxy.Http.{handle_http}
use api_x.Proxy.Limits.{validate_inbound_request}
use api_x.Proxy.MapLocal.{Files}
use api_x.Proxy.Pipeline
use api_x.Proxy.Services.{Services, fails_upstream, not_dialled}
use api_x.Proxy.Transaction.{Inbound, ensure_request_id, refused}
use api_x.Regex.{RegexLib}

abbrev substrings : RegexLib
substrings = record { Regex = Text; compile = some; match_string = λ re s. contains s re }

abbrev machine : Machine
machine = record {
  atoi = λ s. some (pos 8080);
  port_free = λ s. true;
  parse_ip = λ s. some false;
  missing = λ path. false;
  key_pair_loads = λ cert key. true;
}

-- A gRPC server for every interface, with TLS and a token.
abbrev remote : Config
remote = record {
  http_port = str "8080";
  grpc_port = str "8080";
  grpc_bind_address = str "0.0.0.0";
  db_path = str "apix.db";
  tls_enabled = true;
  grpc_cert_path = str "c.pem";
  grpc_key_path = str "k.pem";
  auth_token = str "t";
  auth_token_file = [];
  auth_token_require_strict_perms = false;
  max_idle_conns_per_host = pos 10;
  proxy_rate_limit_per_sec = pos 0;
  proxy_max_concurrent_connections = pos 0;
  max_headers_per_request = pos 0;
  max_header_value_bytes = pos 0;
  max_total_header_bytes = pos 0;
  max_url_length = pos 0;
  max_body_size_mb = pos 32;
  access_log_enabled = false;
  access_log_format = [];
  access_log_path = [];
  audit_log_enabled = false;
  audit_log_path = [];
  otel_enabled = false;
  otel_endpoint = [];
  otel_service_name = [];
  otel_sample_rate_ok = false;
  log_format = str "json";
  log_level = [];
  log_max_size_mb = pos 0;
  log_max_files = pos 0;
  mcp_enabled = false;
  mcp_port = [];
  mcp_bind_address = [];
  mcp_allow_replay = false;
  mcp_allow_compose = false;
  plugin_paths = [];
  contract_paths = [];
  url_patterns = str "a" ∷ [];
  map_local_rules = [];
  config_perms_too_open = false;
  auth_token_set_in_config_file = false;
}

accepted : (a : Bool) → Accepted substrings machine a remote
unfolding validate
accepted true = refl
accepted false = refl

remote_is_secured_example :
    (remote.tls_enabled ≡ true)
    × (is_blank remote.auth_token ≡ false)
    × (machine.key_pair_loads (str "c.pem") (str "k.pem") ≡ true)
unfolding text_eq
remote_is_secured_example =
    remote_is_secured substrings machine false remote (accepted false) (inl (refl, refl, λ e. cc))

abbrev header : Header
header = (str "A", str "1" ∷ []) ∷ []

-- The same with limits of its own.
abbrev limited : Config
limited = record remote {
  max_url_length = pos 100;
  max_total_header_bytes = pos 1000;
  max_headers_per_request = pos 10;
}

abbrev files : Files
files = record {
  read_file = λ path. none;
  read_error = λ path. path;
  type_by_extension = λ path. [];
  detect_content_type = λ body. [];
  status_text = λ code. [];
}

abbrev no_bodies : Pipeline.Config
no_bodies = record { limits = limits_of remote; max_body_size_mb = 0; map_local_rules = [] }

abbrev svc : Services ℕ
svc = record {
  has_plugins = false;
  run_request = none;
  run_response = none;
  engine = none;
  round_trip = λ up s. (s, fails_upstream);
  dial = λ req h s. (s, not_dialled);
}

abbrev inb : Inbound
inb = record {
  method = str "POST";
  url = record { text = str "/x"; host = []; hostname = []; path = str "/x"; query = [] };
  header = [];
  body = str "hi";
  content_length = 2;
  protocol = [];
  remote_addr = [];
}

zero_limit_refuses_example :
    (validate_connection_pool (record remote { max_body_size_mb = pos 0 })
      ≡ validate_connection_pool (record remote { max_body_size_mb = pos 1 }))
    × (handle_http substrings files no_bodies svc (str "1") inb 0 ≡ refused 413 0)
unfolding validate_inbound_request ensure_request_id
zero_limit_refuses_example =
    zero_limit_refuses substrings files remote no_bodies svc (str "1") inb 0 refl refl refl
