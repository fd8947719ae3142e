-- ===== src/FaultInjection/Examples.antt =====
-- Fault injection at concrete inputs.
use api_x.Base.{ℕ, Text, none, [], str}
use api_x.Plugin.{ProxyRequest}
use api_x.FaultInjection.{FaultRule}

abbrev status_text : ℕ → Text
status_text status = str "status"

abbrev rule_of : Text → FaultRule
rule_of fault_type = record {
  match_path = [];
  match_method = [];
  fault_type = fault_type;
  abort_status = 0;
  delay_duration = 5;
  header_name = str "X-A";
  header_value = str "on";
}

abbrev req : ProxyRequest
req = record {
  id = [];
  method = str "GET";
  url = record { text = []; host = []; hostname = []; path = str "/x"; query = [] };
  headers = [];
  body = [];
  protocol = [];
  raw = none;
  mocked_response = none;
}
