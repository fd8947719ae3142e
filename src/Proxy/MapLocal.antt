-- ===== src/Proxy/MapLocal.antt =====
-- Map-local rules of internal/proxy/http.go and internal/config/config.go: local files that answer in
-- place of the upstream. Reading a file, guessing a type and the texts of statuses are parameters.
use api_x.Base.{
  ℕ, Text, str, is_blank, Bool, false, Option, none, some, List, [], ◌∷◌, ◌++◌, ◌==◌, if◌then◌else◌,
}
use api_x.Base.Strings.{itoa}
use api_x.Plugin.{ProxyResponse}
use api_x.Regex.{RegexLib}

pub record MapLocalRule : Type 0 where
  pub url_pattern : Text
  pub file_path : Text
  pub local_path : Text
  pub content_type : Text
  pub status_code : ℕ

-- `EffectiveFilePath`
unfoldable pub effective_file_path : MapLocalRule → Text
effective_file_path rule = if is_blank rule.file_path then rule.local_path else rule.file_path

-- The calls of the operating system and of Go's libraries.
pub record Files : Type 0 where
  pub read_file : Text → Option Text
  pub read_error : Text → Text  -- the message for a file that cannot be read
  pub type_by_extension : Text → Text
  pub detect_content_type : Text → Text
  pub status_text : ℕ → Text

module _ (lib : RegexLib) (files : Files) where
  -- `detectContentType`
  unfoldable pub detect_content_type : Text → Text → Text
  detect_content_type path body =
      let ctype = files.type_by_extension path in
      if is_blank ctype
      then if is_blank body then str "application/octet-stream" else files.detect_content_type body
      else ctype

  abbrev local_response : ℕ → Text → ProxyResponse
  local_response code content_type = record {
    status_code = code;
    status = itoa code ++ str " " ++ files.status_text code;
    headers = (str "Content-Type", content_type ∷ []) ∷ [];
    body = [];
  }

  -- What a rule that matches answers, with the file's content or without.
  unfoldable pub serve_file : MapLocalRule → Option Text → ProxyResponse × Text
  unfolding detect_content_type effective_file_path itoa
  serve_file rule none = (
    local_response 500 (str "text/plain; charset=utf-8"),
    files.read_error (effective_file_path rule),
  )
  serve_file rule (some body) =
      let detected = detect_content_type (effective_file_path rule) body in
      (
        local_response (if rule.status_code == 0 then 200 else rule.status_code)
            (if is_blank rule.content_type then detected else rule.content_type),
        body,
      )

  abbrev pub pattern_matches : Option lib.Regex → Text → Bool
  pattern_matches none url = false
  pattern_matches (some re) url = lib.match_string re url

  -- `applyMapLocalRules`: the first rule whose pattern compiles and matches
  unfoldable pub apply_map_local_rules : List MapLocalRule → Text → Option (ProxyResponse × Text)
  unfolding serve_file effective_file_path
  apply_map_local_rules [] url = none
  apply_map_local_rules (rule ∷ rules) url =
      let later = apply_map_local_rules rules url in
      if pattern_matches (lib.compile rule.url_pattern) url
      then some (serve_file rule (files.read_file (effective_file_path rule)))
      else later
