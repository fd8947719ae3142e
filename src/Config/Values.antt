-- ===== src/Config/Values.antt =====
-- The checks of the database, limits, lists of paths and patterns, logs and map-local rules in
-- internal/config/validate.go.
use api_x.Base.{
  ℕ, Text, str, is_blank, Bool, ◌&&◌, ◌||◌, not, List, [], ◌∷◌, ◌++◌, any, ltb, ◌==◌, ◌+◌,
}
use api_x.Base.Int.{ℤ, pos, ltb_ℤ, leb_ℤ}
use api_x.Base.Strings.{text_eq, to_lower, trim_space}
use api_x.Proxy.MapLocal.{MapLocalRule, effective_file_path}
use api_x.Regex.{RegexLib}
use api_x.Config.{
  Config, Machine, Problem, must_be_set, out_of_range, invalid, too_small, bad_entry, report,
  is_none,
}

-- `validateDatabase`
unfoldable pub validate_database : Config → List Problem
validate_database c = report (is_blank c.db_path) (must_be_set (str "db_path"))

abbrev not_positive : Text → ℤ → List Problem
not_positive field n = report (leb_ℤ n (pos 0)) (too_small field)

-- `validateConnectionPool`
unfoldable pub validate_connection_pool : Config → List Problem
validate_connection_pool c =
    not_positive (str "max_idle_conns_per_host") c.max_idle_conns_per_host
    ++ not_positive (str "proxy_rate_limit_per_sec") c.proxy_rate_limit_per_sec
    ++ not_positive (str "proxy_max_concurrent_connections") c.proxy_max_concurrent_connections
    ++ not_positive (str "max_headers_per_request") c.max_headers_per_request
    ++ not_positive (str "max_header_value_bytes") c.max_header_value_bytes
    ++ not_positive (str "max_total_header_bytes") c.max_total_header_bytes
    ++ not_positive (str "max_url_length") c.max_url_length
    ++ report (ltb_ℤ c.max_body_size_mb (pos 0)) (too_small (str "max_body_size_mb"))

-- The loops of `validatePluginPaths`, `validateContractPaths` and `validateURLPatterns`, from an index on:
-- an entry is bad if it is blank or fails the test.
unfoldable pub validate_entries : Text → (Text → Bool) → ℕ → List Text → List Problem
validate_entries field fails i [] = []
validate_entries field fails i (p ∷ ps) =
    report (is_blank p || fails p) (bad_entry field i) ++ validate_entries field fails (i + 1) ps

-- `validatePluginPaths`
unfoldable pub validate_plugin_paths : Machine → Config → List Problem
unfolding validate_entries
validate_plugin_paths m c = validate_entries (str "plugin_paths") m.missing 0 c.plugin_paths

-- `validateContractPaths`
unfoldable pub validate_contract_paths : Machine → Config → List Problem
unfolding validate_entries
validate_contract_paths m c = validate_entries (str "contract_paths") m.missing 0 c.contract_paths

-- `validateURLPatterns`
unfoldable pub validate_url_patterns : RegexLib → Config → List Problem
unfolding validate_entries
validate_url_patterns lib c =
    validate_entries (str "url_patterns") (λ p. is_none (lib.compile p)) 0 c.url_patterns

abbrev one_of : List Text → Text → Bool
one_of words s = any (λ w. text_eq w s) words

-- `validateLogging`
unfoldable pub validate_logging : Config → List Problem
unfolding text_eq to_lower trim_space
validate_logging c =
    report (not (is_blank c.log_format) && not (one_of (str "text" ∷ str "json" ∷ []) c.log_format))
      (invalid (str "log_format"))
    ++ report
        (not (is_blank c.log_level)
          && not (
              one_of (str "debug" ∷ str "info" ∷ str "warn" ∷ str "error" ∷ [])
                (to_lower c.log_level)))
        (invalid (str "log_level"))
    ++ report (ltb_ℤ c.log_max_size_mb (pos 0)) (too_small (str "log_max_size_mb"))
    ++ report (ltb_ℤ c.log_max_files (pos 0)) (too_small (str "log_max_files"))
    ++ report
        (not (is_blank c.access_log_format)
          && not (
              one_of (str "json" ∷ str "common" ∷ str "combined" ∷ [])
                (to_lower c.access_log_format)))
        (invalid (str "access_log_format"))
    ++ report (c.access_log_enabled && is_blank (trim_space c.access_log_path))
        (must_be_set (str "access_log_path"))
    ++ report (c.audit_log_enabled && is_blank (trim_space c.audit_log_path))
        (must_be_set (str "audit_log_path"))
    ++ report (c.otel_enabled && is_blank (trim_space c.otel_endpoint))
        (must_be_set (str "otel_endpoint"))
    ++ report (c.otel_enabled && is_blank (trim_space c.otel_service_name))
        (must_be_set (str "otel_service_name"))
    ++ report (c.otel_enabled && not c.otel_sample_rate_ok) (out_of_range (str "otel_sample_rate"))

-- The loop of `validateMapLocalRules`, from an index on.
unfoldable pub validate_map_local_rules : RegexLib → ℕ → List MapLocalRule → List Problem
unfolding effective_file_path
validate_map_local_rules lib i [] = []
validate_map_local_rules lib i (rule ∷ rules) =
    report (is_blank rule.url_pattern || is_none (lib.compile rule.url_pattern))
      (bad_entry (str "map_local_rules.url_pattern") i)
    ++ report (is_blank (effective_file_path rule)) (bad_entry (str "map_local_rules.file_path") i)
    ++ report
        (not (rule.status_code == 0) && (ltb rule.status_code 100 || ltb 599 rule.status_code))
        (bad_entry (str "map_local_rules.status_code") i)
    ++ validate_map_local_rules lib (i + 1) rules
