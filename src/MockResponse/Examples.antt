-- ===== src/MockResponse/Examples.antt =====
-- Mocks at concrete requests.
use api_x.Base.{Text, str, none, some, [], ◌∷◌, ◌≡◌, refl}
use api_x.Base.Strings.{contains}
use api_x.Plugin.{ProxyRequest}
use api_x.PluginRuntime.{returns}
use api_x.MockResponse.{MockResponse, on_request}
use api_x.Regex.{RegexLib}

abbrev substrings : RegexLib
substrings = record { Regex = Text; compile = some; match_string = λ re s. contains s re }

abbrev mock : MockResponse Text
mock = record {
  url_pattern = str "/a";
  status_code = 0;
  headers = (str "x-mock", str "1") ∷ [];
  body = str "hi";
  compiled = none;
}

abbrev req : ProxyRequest
req = record {
  id = str "r1";
  method = str "GET";
  url = record {
    text = str "http://h/a";
    host = str "h";
    hostname = str "h";
    path = str "/a";
    query = [];
  };
  headers = [];
  body = [];
  protocol = str "HTTP/1.1";
  raw = none;
  mocked_response = none;
}

-- A status of zero is 200, and the pattern is kept.
mocks : on_request substrings (λ code. str "OK") (λ pattern. pattern) req mock ≡ (
  record mock { compiled = some (str "/a") },
  returns (
      some (record req {
        mocked_response = some (record {
          status_code = 200;
          status = str "OK";
          headers = (str "X-Mock", str "1" ∷ []) ∷ [];
          body = str "hi";
        });
      })),
)
unfolding on_request contains api_x.Header.canonical_key
mocks = refl
