-- ===== src/Plugin.antt =====
-- pkg/plugins/sdk.go: the requests and responses that go through the plugin chain.
-- A body is the list of bytes that its reader still has. A status code is a number, as in HTTP.
use api_x.Base.{ℕ, Text, Option}
use api_x.Base.Maps.{Assoc}
use api_x.Header.{Header}

-- A parsed `*url.URL`, known by what its methods and fields return.
pub record Url : Type 0 where
  pub text : Text  -- String()
  pub host : Text
  pub hostname : Text  -- Hostname()
  pub path : Text
  pub query : Assoc Text  -- the first value of each parameter of Query()

-- The original `*http.Request`.
pub record RawRequest : Type 0 where
  pub remote_addr : Text

pub record ProxyResponse : Type 0 where
  pub status_code : ℕ
  pub status : Text
  pub headers : Header
  pub body : Text

pub record ProxyRequest : Type 0 where
  pub id : Text
  pub method : Text
  pub url : Url
  pub headers : Header
  pub body : Text
  pub protocol : Text
  pub raw : Option RawRequest
  pub mocked_response : Option ProxyResponse

-- `(*ProxyRequest).Clone`; values are not shared in the model, so the headers need no copy
unfoldable pub clone : ProxyRequest → Text → ProxyRequest
clone r new_body = record r { body = new_body }

-- `(*ProxyResponse).Clone`
unfoldable pub clone_response : ProxyResponse → Text → ProxyResponse
clone_response r new_body = record r { body = new_body }
