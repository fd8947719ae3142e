-- ===== src/Proxy/Services.antt =====
-- What the proxies call: the plugin chain (`RequestPlugin` and `ResponsePlugin`), the breakpoint
-- manager behind the engine, the store of rewrite rules, the transport to the upstream and the websocket
-- library. They are an interface here, over a state of their own.
use api_x.Base.{ℕ, Text, Bool, Option, List}
use api_x.Breakpoints.{ResumeAction}
use api_x.Header.{Header}
use api_x.Plugin.{Url, RawRequest, ProxyRequest, ProxyResponse}
use api_x.PluginRuntime.{Outcome}
use api_x.Proxy.Transaction.{UpstreamRequest}
use api_x.Rewrite.{RewriteRule}

-- The reader in a response: nil, one that gives these bytes, or one that fails.
pub data Reader : Type 0 where
  no_reader fails_to_read : Reader
  reads : Text → Reader

-- A response that a plugin gives back, with its reader.
pub record HookedResponse : Type 0 where
  pub response : ProxyResponse
  pub reader : Reader

-- The request and the response that a decision carries.
pub record ModifiedRequest : Type 0 where
  pub method : Text
  pub url : Url
  pub headers : Header
  pub body : Text
  pub raw : RawRequest

pub record ModifiedResponse : Type 0 where
  pub status_code : ℕ
  pub status : Text
  pub headers : Header
  pub body : Option Text  -- none where reading it fails

pub record Decision : Type 0 where
  pub action : ResumeAction
  pub modified_request : Option ModifiedRequest
  pub modified_response : Option ModifiedResponse

pub data PauseReply : Type 0 where
  pause_failed no_decision : PauseReply
  decides : Decision → PauseReply

-- The engine's breakpoint manager and rewrite rules; an identifier that is blank is no breakpoint.
-- Rules that do not load are `none`.
pub record Engine (S : Type 0) : Type 0 where
  pub evaluate_request : Text → Text → Header → Text → S → Text
  pub evaluate_response : Text → Text → Header → Text → ℕ → S → Text
  pub pause : Text → Text → S → S × PauseReply
  pub rewrite_rules : S → Option (List RewriteRule)

pub record UpstreamResponse : Type 0 where
  pub status_code : ℕ
  pub status : Text
  pub header : Header
  pub trailer : Header
  pub body : Text

-- What comes of a request to the upstream: `NewRequest` fails, `RoundTrip` or reading the body fails,
-- or there is a response with its body.
pub data UpstreamReply : Type 0 where
  not_built fails_upstream : UpstreamReply
  replies : UpstreamResponse → UpstreamReply

-- A websocket: the upstream does not take it, the client's side fails, or both stand.
pub data Dialled : Type 0 where
  not_dialled not_upgraded : Dialled
  connected : Text → Header → Dialled

-- A hook that the chain does not implement is `none`, and so is a nil engine.
pub record Services (S : Type 0) : Type 0 where
  pub has_plugins : Bool  -- `plugins != nil`
  pub run_request : Option (ProxyRequest → S → S × Outcome ProxyRequest)
  pub run_response : Option (ProxyRequest → HookedResponse → S → S × Outcome HookedResponse)
  pub engine : Option (Engine S)
  pub round_trip : UpstreamRequest → S → S × UpstreamReply
  pub dial : ProxyRequest → Header → S → S × Dialled
