-- ===== src/HeaderEditor.antt =====
-- internal/pluginrt/builtins/header_editor.go: headers that a configuration sets or deletes. The
-- configured map comes in the order of the range loop, and reading a body does not fail.
pub mod Editing
mod Examples
use api_x.Base.{Text, is_blank, Option, none, some, List, [], ◌∷◌, if◌then◌else◌, is_empty}
use api_x.Base.Maps.{Assoc}
use api_x.Header
use api_x.Header.{Header}
use api_x.Plugin.{ProxyRequest, ProxyResponse, clone, clone_response}

pub record HeaderEditor : Type 0 where
  pub request_headers : Assoc Text
  pub response_headers : Assoc Text

unfoldable pub edit_one : Header → Text → Text → Header
unfolding Header.del Header.set
edit_one h k v = if is_blank v then Header.del h k else Header.set h k v

-- The range loop of both hooks.
unfoldable pub edit_headers : Header → Assoc Text → Header
unfolding edit_one
edit_headers h [] = h
edit_headers h ((k, v) ∷ kvs) = edit_headers (edit_one h k v) kvs

-- `OnRequest`
unfoldable pub on_request : HeaderEditor → ProxyRequest → Option ProxyRequest
unfolding edit_headers clone
on_request p req =
    if is_empty p.request_headers
    then none
    else some (record (clone req req.body) { headers = edit_headers req.headers p.request_headers })

-- `OnResponse`
unfoldable pub on_response : HeaderEditor → ProxyResponse → Option ProxyResponse
unfolding edit_headers clone_response
on_response p resp =
    if is_empty p.response_headers
    then none
    else some (record (clone_response resp resp.body) {
      headers = edit_headers resp.headers p.response_headers;
    })
