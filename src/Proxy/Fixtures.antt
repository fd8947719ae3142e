-- ===== src/Proxy/Fixtures.antt =====
-- Concrete requests, services and configurations for the pipelines of internal/proxy.
use api_x.Base.{ℕ, suc, Text, str, true, false, none, some, List, [], ◌∷◌, if◌then◌else◌, ◌==◌}
use api_x.Base.Int.{pos}
use api_x.Base.Strings.{contains}
use api_x.CircuitBreaker.{CircuitBreaker, open_circuit}
use api_x.Plugin.{Url, ProxyResponse}
use api_x.Regex.{RegexLib}
use api_x.Rewrite.{RewriteRule, add_request_header, HttpRequest}
use api_x.Proxy.Limits.{RequestLimits}
use api_x.Proxy.MapLocal.{MapLocalRule, Files}
use api_x.Proxy.Pipeline.{Config, build_transaction}
use api_x.Proxy.Services.{
  Services, Engine, UpstreamResponse, replies, fails_upstream, not_dialled, no_decision,
}
use api_x.Proxy.Transaction.{Inbound, Transaction, http_request}

-- Patterns that match where they occur.
abbrev pub substrings : RegexLib
substrings = record { Regex = Text; compile = some; match_string = λ re s. contains s re }

abbrev pub files : Files
files = record {
  read_file = λ path. some (str "local");
  read_error = λ path. path;
  type_by_extension = λ path. str "text/plain";
  detect_content_type = λ body. str "text/plain";
  status_text = λ code. str "OK";
}

abbrev pub no_limits : RequestLimits
no_limits = record {
  max_url_length = pos 0;
  max_header_value_bytes = pos 0;
  max_total_header_bytes = pos 0;
  max_headers_per_request = pos 0;
}

abbrev pub cfg : Config
cfg = record { limits = no_limits; max_body_size_mb = 1; map_local_rules = [] }

abbrev pub url : Url
url = record {
  text = str "http://a/x";
  host = str "a";
  hostname = str "a";
  path = str "/x";
  query = [];
}

abbrev pub inb : Inbound
inb = record {
  method = str "GET";
  url = url;
  header = [];
  body = str "hi";
  content_length = 2;
  protocol = str "HTTP/1.1";
  remote_addr = str "c:1";
}

abbrev pub response : UpstreamResponse
response = record {
  status_code = 200;
  status = str "200 OK";
  header = [];
  trailer = [];
  body = str "yes";
}

abbrev pub tags : List RewriteRule
tags =
    record {
      id = str "r";
      enabled = true;
      priority = pos 1;
      criteria = none;
      action = add_request_header;
      param_key = str "X-Tag";
      param_value = str "1";
      body_template = [];
      response_status = 0;
      response_body = [];
      response_content_type = [];
    }
    ∷ []

abbrev pub engine : Engine ℕ
engine = record {
  evaluate_request = λ method u h body s. [];
  evaluate_response = λ method u h body code s. [];
  pause = λ id bp s. (s, no_decision);
  rewrite_rules = λ s. some tags;
}

-- A proxy that counts its calls to the upstream, with an engine and with nothing.
abbrev pub svc : Services ℕ
svc = record {
  has_plugins = false;
  run_request = none;
  run_response = none;
  engine = some engine;
  round_trip = λ up s. (suc s, replies response);
  dial = λ req h s. (s, not_dialled);
}

abbrev pub bare : Services ℕ
bare = record svc { engine = none }

abbrev pub tx : Transaction
tx = build_transaction (str "1") inb

abbrev pub r : HttpRequest
r = http_request inb

-- An open circuit whose timeout has passed at the time 9, and an upstream that is down.
abbrev pub tripped : CircuitBreaker
tripped = record {
  failure_threshold = pos 1;
  success_threshold = pos 1;
  open_timeout = pos 5;
  match_hosts = [];
  breakers =
      (
        str "a",
        record {
          state = open_circuit;
          failures = 0;
          successes = 0;
          opened_at = 1;
          half_open_pending = false;
        },
      )
      ∷ [];
}

abbrev pub down_at_9 : Services ℕ
down_at_9 = record svc {
  engine = none;
  round_trip = λ up s. (s, if s == 9 then fails_upstream else replies response);
}

abbrev pub other_rule : MapLocalRule
other_rule = record {
  url_pattern = str "/y";
  file_path = [];
  local_path = str "y.txt";
  content_type = [];
  status_code = 0;
}

abbrev pub local_rule : MapLocalRule
local_rule = record other_rule { url_pattern = str "/x" }

abbrev pub local_response : ProxyResponse
local_response = record {
  status_code = 200;
  status = str "200 OK";
  headers = (str "Content-Type", str "text/plain" ∷ []) ∷ [];
  body = [];
}

-- No body is allowed at all.
abbrev pub cfg_0 : Config
cfg_0 = record { limits = no_limits; max_body_size_mb = 0; map_local_rules = local_rule ∷ [] }

abbrev pub tight : RequestLimits
tight = record no_limits { max_headers_per_request = pos 1 }
