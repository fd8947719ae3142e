-- ===== src/MockResponse.antt =====
-- internal/pluginrt/builtins/mock_response.go: a response of the configuration's own for the URLs that match a
-- pattern, which the first request compiles. The configured map comes in the order of the range loop;
-- `http.StatusText` and the message for a bad pattern are arguments.
pub mod Compiling
mod Examples
use api_x.Base.{ℕ, Text, is_blank, Bool, Option, none, some, List, [], ◌∷◌, ◌==◌, if◌then◌else◌}
use api_x.Base.Maps.{Assoc}
use api_x.Header
use api_x.Header.{Header}
use api_x.Plugin.{ProxyRequest, clone}
use api_x.PluginRuntime.{Outcome, returns, fails}
use api_x.Regex.{RegexLib}

pub record MockResponse (R : Type 0) : Type 0 where
  pub url_pattern : Text
  pub status_code : ℕ
  pub headers : Assoc Text
  pub body : Text
  pub compiled : Option R

unfoldable pub mock_headers : Assoc Text → Header → Header
unfolding Header.set
mock_headers [] h = h
mock_headers ((k, v) ∷ kvs) h = mock_headers kvs (Header.set h k v)

module _ (lib : RegexLib) (status_text : ℕ → Text) (bad_pattern : Text → Text) where
  -- The pattern that is compiled already, or compiled now.
  abbrev pub pattern_of : Text → Option lib.Regex → Option lib.Regex
  pattern_of pattern none = lib.compile pattern
  pattern_of pattern (some re) = some re

  abbrev code_or_ok : ℕ → ℕ
  code_or_ok code = if code == 0 then 200 else code

  unfoldable pub mocked : MockResponse lib.Regex → ProxyRequest → ProxyRequest
  unfolding clone mock_headers
  mocked p req = record (clone req req.body) {
    mocked_response = some (record {
      status_code = code_or_ok p.status_code;
      status = status_text (code_or_ok p.status_code);
      headers = mock_headers p.headers [];
      body = p.body;
    });
  }

  -- `OnRequest`: the plugin with its pattern compiled, and the answer
  unfoldable pub on_request :
      ProxyRequest → MockResponse lib.Regex → MockResponse lib.Regex × Outcome ProxyRequest
  unfolding mocked
  on_request req p =
      if is_blank p.url_pattern
      then (p, returns none)
      else elim (pattern_of p.url_pattern p.compiled) [
        | none ↦ (p, fails (bad_pattern p.url_pattern))
        | some re ↦ (
          record p { compiled = some re },
          returns (if lib.match_string re req.url.text then some (mocked p req) else none),
        )
      ]
