-- ===== src/Config/Loading.antt =====
-- internal/config/config.go: the path of the configuration, its defaults, and the loading from a file and
-- the environment. The fields are those of `Config`, so the paths of the proxy's certificate under the home
-- directory and the path and mode that the configuration remembers are not among them.
use api_x.Base.{
  ℕ, ◌%◌, Text, str, is_blank, Bool, true, false, ◌&&◌, not, Option, none, some, [], ◌==◌,
  if◌then◌else◌,
}
use api_x.Base.Int.{pos}
use api_x.Base.Strings.{trim_space}
use api_x.Config.{Config}

-- What the loading asks the operating system and the YAML library. `unmarshal` gives the configuration with
-- the fields that it set and whether it reports no error; `mode_of` is none where `os.Stat` fails;
-- `getenv` is empty for a variable that is not set.
pub record Sources : Type 0 where
  pub read_file : Text → Option Text
  pub mode_of : Text → Option ℕ
  pub unmarshal : Text → Config → Config × Bool
  pub getenv : Text → Text
  pub home : Option Text
  pub config_under : Text → Text  -- `filepath.Join(home, ".apix", "config.yaml")`

abbrev pub defaults : Config
defaults = record {
  http_port = str "8080";
  grpc_port = str "9090";
  grpc_bind_address = str "127.0.0.1";
  db_path = str "apix.db";
  tls_enabled = false;
  grpc_cert_path = [];
  grpc_key_path = [];
  auth_token = [];
  auth_token_file = [];
  auth_token_require_strict_perms = true;
  max_idle_conns_per_host = pos 10;
  proxy_rate_limit_per_sec = pos 1000;
  proxy_max_concurrent_connections = pos 200;
  max_headers_per_request = pos 200;
  max_header_value_bytes = pos 8192;
  max_total_header_bytes = pos 1_048_576;
  max_url_length = pos 8192;
  max_body_size_mb = pos 32;
  access_log_enabled = false;
  access_log_format = str "json";
  access_log_path = str "stdout";
  audit_log_enabled = false;
  audit_log_path = str "stdout";
  otel_enabled = false;
  otel_endpoint = str "localhost:4317";
  otel_service_name = str "apix-proxy";
  otel_sample_rate_ok = true;
  log_format = str "text";
  log_level = str "info";
  log_max_size_mb = pos 100;
  log_max_files = pos 5;
  mcp_enabled = false;
  mcp_port = str "9093";
  mcp_bind_address = str "127.0.0.1";
  mcp_allow_replay = false;
  mcp_allow_compose = false;
  plugin_paths = [];
  contract_paths = [];
  url_patterns = [];
  map_local_rules = [];
  config_perms_too_open = false;
  auth_token_set_in_config_file = false;
}

module _ (s : Sources) where
  abbrev exists_file : Text → Bool
  exists_file path = elim (s.mode_of path) [ none ↦ false | some mode ↦ true ]

  abbrev or_system : Text
  or_system =
      if exists_file (str "/etc/apix/config.yaml")
      then str "/etc/apix/config.yaml"
      else str "./config.yaml"

  abbrev under_home : Option Text → Text
  under_home none = or_system
  under_home (some home) =
      if exists_file (s.config_under home) then s.config_under home else or_system

  -- `DefaultPath`
  unfoldable pub default_path : Text
  default_path =
      let path = s.getenv (str "APIX_CONFIG") in if is_blank path then under_home s.home else path

  abbrev pub env_token : Text
  env_token = s.getenv (str "APIX_AUTH_TOKEN")

  abbrev with_env_token : Config → Config
  with_env_token c = if is_blank env_token then c else record c { auth_token = env_token }

  -- Modes with a bit for the group or for others are too open.
  abbrev with_mode : Option ℕ → Config → Config
  with_mode none c = c
  with_mode (some mode) c = if mode % 64 == 0 then c else record c { config_perms_too_open = true }

  abbrev token_read : Option Text → Config → Config
  token_read none c = c
  token_read (some b) c = record c { auth_token = trim_space b }

  abbrev with_token_file : Config → Config
  with_token_file c =
      if is_blank (trim_space c.auth_token_file)
      then c
      else token_read (s.read_file c.auth_token_file) c

  abbrev bind_grpc : Config → Config
  bind_grpc c =
      if is_blank c.grpc_bind_address
      then record c {
        grpc_bind_address =
            if c.tls_enabled && not (is_blank c.auth_token) then str "0.0.0.0" else str "127.0.0.1";
      }
      else c

  abbrev bind_mcp : Config → Config
  bind_mcp c =
      if is_blank c.mcp_bind_address then record c { mcp_bind_address = str "127.0.0.1" } else c

  -- The rest of the loading, once the file has been parsed without an error.
  unfoldable pub after_parsing : Text → Config → Config
  unfolding trim_space
  after_parsing path c = bind_mcp (
      bind_grpc (
        with_env_token (
          with_token_file (
            with_mode (s.mode_of path)
              (record c { auth_token_set_in_config_file = not (is_blank c.auth_token) })))))

  -- `LoadConfig`
  unfoldable pub load_config : Text → Config
  unfolding after_parsing
  load_config path = elim (s.read_file path) [
    | none ↦ with_env_token defaults
    | some file ↦
        let (c, parsed) = s.unmarshal file defaults in if parsed then after_parsing path c else c
  ]
