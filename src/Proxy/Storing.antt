-- ===== src/Proxy/Storing.antt =====
-- What internal/proxy/http.go stores of a request, next to what it answers.
use api_x.Base.{Text, none, some, ◌≡◌, ◌⊎◌}
use api_x.Plugin.{ProxyResponse}
use api_x.Proxy.Services.{Services}
use api_x.Proxy.Transaction.{
  Transaction, Answer, switches_protocols, error_page, Served, bad_gateway, panics, interim, final,
  status_of, response_headers, responds,
}

-- A response was written with a body: as it is, as an error page where its status has not three digits, or
-- with the status 200 where its own is a 1xx.
abbrev pub IsWritten : Answer → ProxyResponse → Text → Type 0
IsWritten a resp body =
    ((status_of resp.status_code ≡ final)
      × (a ≡ responds resp.status_code (response_headers resp body) body))
    ⊎ ((status_of resp.status_code ≡ panics) × (a ≡ error_page bad_gateway))
    ⊎ ((status_of resp.status_code ≡ interim)
        × (a ≡ responds 200 (response_headers resp body) body))

-- The client got the response of a transaction with its body; or it got a websocket; or the request has
-- lost its original, and it got an error page.
abbrev pub Answers : Answer → Transaction → Type 0
Answers a tx =
    ((resp : ProxyResponse) × (tx.response ≡ some resp) × IsWritten a resp tx.response_body)
    ⊎ (a ≡ switches_protocols)
    ⊎ ((tx.request.raw ≡ none) × (a ≡ error_page bad_gateway))

module _ {S : Type 0} where
  abbrev pub Consistent : Served S → Type 0
  Consistent v = (tx : Transaction) → v.stored ≡ some tx → Answers v.answer tx
