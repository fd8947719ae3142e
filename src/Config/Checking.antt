-- ===== src/Config/Checking.antt =====
-- `Validate` and `ValidateRuntime` of internal/config/validate.go.
use api_x.Base.{Bool, List, ◌++◌}
use api_x.Regex.{RegexLib}
use api_x.Config.{Config, Machine, Problem, apply_validation_defaults}
use api_x.Config.Network.{validate_ports, validate_tls_and_auth}
use api_x.Config.Values.{
  validate_database, validate_connection_pool, validate_plugin_paths, validate_contract_paths,
  validate_url_patterns, validate_logging, validate_map_local_rules,
}

-- `validate`: the configuration with its defaults, and the problems. `Validate` calls it with false, and
-- `ValidateRuntime` with true.
unfoldable pub validate : RegexLib → Machine → Bool → Config → Config × List Problem
unfolding apply_validation_defaults validate_ports validate_database validate_connection_pool
    validate_tls_and_auth validate_plugin_paths validate_contract_paths validate_url_patterns
    validate_logging validate_map_local_rules
validate lib m allow_bound_ports given =
    let c = apply_validation_defaults given in
    (
      c,
      validate_ports m allow_bound_ports c
          ++ validate_database c
          ++ validate_connection_pool c
          ++ validate_tls_and_auth m c
          ++ validate_plugin_paths m c
          ++ validate_contract_paths m c
          ++ validate_url_patterns lib c
          ++ validate_logging c
          ++ validate_map_local_rules lib 0 c.map_local_rules,
    )
