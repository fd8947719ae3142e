-- ===== src/Config.antt =====
-- internal/config/validate.go: the checks of a configuration, which report every problem at once. The texts
-- of the problems are known by the field that they name. Ports, addresses, files and certificates are
-- looked up through an interface.
pub mod Network
pub mod Values
pub mod Checking
pub mod Accepting
pub mod Loading
pub mod Loaded
mod Examples
mod Startup
use api_x.Base.{
  ℕ, Text, str, is_blank, Bool, true, false, ◌&&◌, ◌||◌, not, Option, none, some, List, [], ◌∷◌,
  ◌++◌, any, ltb, ◌==◌, ◌+◌, if◌then◌else◌,
}
use api_x.Base.Int.{ℤ, pos, negsuc, ltb_ℤ, leb_ℤ}
use api_x.Base.Strings.{text_eq, to_lower, trim_space}
use api_x.Proxy.MapLocal.{MapLocalRule, effective_file_path}
use api_x.Regex.{RegexLib}

-- The fields that the checks read. The sample rate is a float, and known by whether it is above 0 and at
-- most 1. Status codes of map-local rules are not negative.
pub record Config : Type 0 where
  pub http_port : Text
  pub grpc_port : Text
  pub grpc_bind_address : Text
  pub db_path : Text
  pub tls_enabled : Bool
  pub grpc_cert_path : Text
  pub grpc_key_path : Text
  pub auth_token : Text
  pub auth_token_file : Text
  pub auth_token_require_strict_perms : Bool
  pub max_idle_conns_per_host : ℤ
  pub proxy_rate_limit_per_sec : ℤ
  pub proxy_max_concurrent_connections : ℤ
  pub max_headers_per_request : ℤ
  pub max_header_value_bytes : ℤ
  pub max_total_header_bytes : ℤ
  pub max_url_length : ℤ
  pub max_body_size_mb : ℤ
  pub access_log_enabled : Bool
  pub access_log_format : Text
  pub access_log_path : Text
  pub audit_log_enabled : Bool
  pub audit_log_path : Text
  pub otel_enabled : Bool
  pub otel_endpoint : Text
  pub otel_service_name : Text
  pub otel_sample_rate_ok : Bool
  pub log_format : Text
  pub log_level : Text
  pub log_max_size_mb : ℤ
  pub log_max_files : ℤ
  pub mcp_enabled : Bool
  pub mcp_port : Text
  pub mcp_bind_address : Text
  pub mcp_allow_replay : Bool
  pub mcp_allow_compose : Bool
  pub plugin_paths : List Text
  pub contract_paths : List Text
  pub url_patterns : List Text
  pub map_local_rules : List MapLocalRule
  pub config_perms_too_open : Bool
  pub auth_token_set_in_config_file : Bool

-- What the checks ask the machine and Go's libraries. `parse_ip` tells whether an address is a loopback
-- one; `missing` is `os.IsNotExist`.
pub record Machine : Type 0 where
  pub atoi : Text → Option ℤ
  pub port_free : Text → Bool
  pub parse_ip : Text → Option Bool
  pub missing : Text → Bool
  pub key_pair_loads : Text → Text → Bool

-- A problem, by the field that it is about, and for an entry of a list by its index.
pub data Problem : Type 0 where
  must_be_set not_a_number out_of_range in_use invalid too_small missing_file too_open :
      Text → Problem
  needs : Text → Text → Problem
  bad_entry : Text → ℕ → Problem

abbrev pub report : Bool → Problem → List Problem
report test p = if test then p ∷ [] else []

abbrev default_if_zero : ℤ → ℕ → ℤ
default_if_zero (pos ℕ.zero) def = pos def
default_if_zero (pos (ℕ.suc n)) def = pos (ℕ.suc n)
default_if_zero (negsuc n) def = negsuc n

-- `applyValidationDefaults`
unfoldable pub apply_validation_defaults : Config → Config
apply_validation_defaults c = record c {
  max_headers_per_request = default_if_zero c.max_headers_per_request 200;
  proxy_rate_limit_per_sec = default_if_zero c.proxy_rate_limit_per_sec 1000;
  proxy_max_concurrent_connections = default_if_zero c.proxy_max_concurrent_connections 200;
  max_header_value_bytes = default_if_zero c.max_header_value_bytes 8192;
  max_total_header_bytes = default_if_zero c.max_total_header_bytes 1_048_576;
  max_url_length = default_if_zero c.max_url_length 8192;
}

abbrev pub is_none : {A : Type 0} → Option A → Bool
is_none none = true
is_none (some a) = false
