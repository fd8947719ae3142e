-- ===== src/Proxy/Pausing.antt =====
-- `PauseRequest` and `PauseResponse` of internal/engine/engine.go: breakpoints on transactions.
use api_x.Base.{ℕ, Text, is_blank, Bool, true, false, Option, none, some, if◌then◌else◌}
use api_x.Breakpoints.{ResumeAction, action_forward, action_drop, action_respond}
use api_x.Plugin.{RawRequest, ProxyResponse}
use api_x.Proxy.Services.{
  Engine, Decision, ModifiedRequest, ModifiedResponse, PauseReply, pause_failed, no_decision,
  decides,
}
use api_x.Proxy.Transaction.{Transaction}

-- The transaction after a pause, the action, and whether there is an error.
pub record Paused : Type 0 where
  pub tx : Transaction
  pub action : ResumeAction
  pub failed : Bool

abbrev pub forwards : Transaction → Paused
forwards tx = record { tx = tx; action = action_forward; failed = false }

abbrev drops : Transaction → Paused
drops tx = record { tx = tx; action = action_drop; failed = false }

abbrev synthetic : ModifiedResponse → Text → ProxyResponse
synthetic r body = record {
  status_code = r.status_code;
  status = r.status;
  headers = r.headers;
  body = body;
}

-- ActionRespond; the pause of a response sets the transaction's body too.
abbrev respond_with : Bool → Transaction → ModifiedResponse → Option Text → Paused
respond_with sets_body tx r none = record { tx = tx; action = action_respond; failed = true }
respond_with sets_body tx r (some body) = record {
  tx = record tx {
    response = some (synthetic r body);
    response_body = if sets_body then body else tx.response_body;
  };
  action = action_respond;
  failed = false;
}

abbrev responds_to : Bool → Transaction → Option ModifiedResponse → Paused
responds_to sets_body tx none = record { tx = tx; action = action_respond; failed = false }
responds_to sets_body tx (some r) = respond_with sets_body tx r r.body

abbrev modify_request : Option ModifiedRequest → Transaction → Transaction
modify_request none tx = tx
modify_request (some mr) tx = record tx {
  request = record tx.request {
    raw = some mr.raw;
    method = mr.method;
    url = mr.url;
    headers = mr.headers;
    body = mr.body;
  };
}

abbrev decide_request : ResumeAction → Decision → Transaction → Paused
decide_request action_drop d tx = drops tx
decide_request action_respond d tx = responds_to false tx d.modified_response
decide_request action_forward d tx = forwards (modify_request d.modified_request tx)

abbrev decide_response : ResumeAction → Decision → Transaction → Paused
decide_response action_drop d tx = drops tx
decide_response action_respond d tx = responds_to true tx d.modified_response
decide_response action_forward d tx = forwards tx

-- A pause that fails, for a timeout too, forwards.
abbrev after_pause :
    (ResumeAction → Decision → Transaction → Paused) → PauseReply → Transaction → Paused
after_pause decide pause_failed tx = forwards tx
after_pause decide no_decision tx = forwards tx
after_pause decide (decides d) tx = decide d.action d tx

module _ {S : Type 0} where
  -- The pause at a breakpoint; without one, or without the request that came in, it forwards.
  abbrev pause_at :
      Engine S
      → Option RawRequest
      → Text
      → (ResumeAction → Decision → Transaction → Paused)
      → Transaction
      → S
      → S × Paused
  pause_at e none bp_id decide tx s = (s, forwards tx)
  pause_at e (some raw) bp_id decide tx s =
      let (s', reply) = e.pause tx.id bp_id s in
      if is_blank bp_id then (s, forwards tx) else (s', after_pause decide reply tx)

  -- `PauseRequest`
  unfoldable pub pause_request : Engine S → Transaction → S → S × Paused
  pause_request e tx s =
      let bp_id =
        e.evaluate_request tx.request.method tx.request.url.text tx.request.headers tx.request_body
          s in
      pause_at e tx.request.raw bp_id decide_request tx s

  -- `PauseResponse`
  unfoldable pub pause_response : Engine S → Transaction → ℕ → Text → S → S × Paused
  pause_response e tx status_code body s =
      let bp_id =
        e.evaluate_response tx.request.method tx.request.url.text tx.request.headers body
          status_code s in
      pause_at e tx.request.raw bp_id decide_response tx s
