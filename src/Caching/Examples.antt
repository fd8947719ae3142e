-- ===== src/Caching/Examples.antt =====
-- The cache of responses at concrete inputs.
use api_x.Base.{none, [], refl, str, arith}
use api_x.Base.Int.{pos}
use api_x.Plugin.{ProxyRequest, ProxyResponse}
use api_x.CertLru.{new_cert_lru}
use api_x.Caching.{CachingPlugin, method_allowed, on_response}
use api_x.Caching.Serving.{Caches, on_response-Caches}

abbrev resp : ProxyResponse
resp = record { status_code = 200; status = str "200 OK"; headers = []; body = str "hi" }

abbrev empty : CachingPlugin
empty = record {
  cfg = record { capacity = pos 0; ttl = pos 10; cache_methods = [] };
  lru = new_cert_lru (λ a. ([], record { response = resp; expiry = 0 })) (pos 0);
}

abbrev req : ProxyRequest
req = record {
  id = [];
  method = str "GET";
  url = record { text = str "/x"; host = []; hostname = []; path = str "/x"; query = [] };
  headers = [];
  body = [];
  protocol = [];
  raw = none;
  mocked_response = none;
}

abbrev filled : CachingPlugin
filled = (on_response empty 5 req resp).0

filled-Caches : Caches filled req resp 15
unfolding method_allowed
filled-Caches = on_response-Caches empty 5 req resp refl (omega arith) (omega arith)
