-- ===== src/Net/WebSocket/Exchange.antt =====
-- The two exchanges with the header client of dumb/browser/net/dumb_proxying_web_socket.cc: the
-- network service's call, the question to the client, the client's answer, and the answer to the
-- network service.
use mathlib.Core.List.{append-nil}
use dumb_browser.Base.{
  ℕ, ◌≡◌, refl, sym, ◌∙◌, ap, String, true, false, Option, none, some, [], ◌∷◌, ◌++◌, if◌then◌else◌,
  is_ok, is_empty, value_or, Bool-cases, inl, inr, NetError, net_ok, done,
}
use dumb_browser.Net.Libraries.{NetLibraries}
use dumb_browser.Net.Handler
use dumb_browser.Net.Handler.{on_before_start_transaction}
use dumb_browser.Net.Loader.{bound}
use package.dumb_browser.Net.WebSocket.{
  WebSocketProxy, ask_send_headers, ask_headers_received, answer_send_headers,
  answer_headers_received, is_empty_data_uri, apply_effects, on_error,
}
use package.dumb_browser.Net.WebSocket.Handshake.{
  HeaderList, on_before_send_headers, on_before_request_complete, on_before_send_headers_complete,
  on_before_send_headers_complete_from_proxy,
}
use package.dumb_browser.Net.WebSocket.Headers.{
  on_headers_received, continue_to_headers_received, after_headers_received,
  pause_incoming_method_call_processing, resume_incoming_method_call_processing,
  on_headers_received_complete, on_headers_received_complete_from_proxy,
}
use package.dumb_browser.Net.WebSocket.Info.{request_url-remake_ctx, tab_origin-remake_ctx}
use package.dumb_browser.Net.WebSocket.Step.{
  sends_headers, receives_headers, send_headers_answered, headers_received_answered, handle, step,
  run,
}

module _ (lib : NetLibraries) (header_list : HeaderList lib) where
  -- While a web socket with a header client has no open question about the request's headers and
  -- its receiver for such questions is bound, a set of headers from the network service and the
  -- client's answer to it make one exchange: the client is asked with those very headers, and with
  -- its answer OK the network service gets the client's headers, which the request keeps, or no
  -- headers if it gave none, and the factory is not touched; with an error the socket ends and the
  -- network service gets no answer.
  pub run-sends_headers :
      (fuel : ℕ) (s : WebSocketProxy lib) (headers : lib.RequestHeaders) (e : NetError)
      (answer : Option lib.RequestHeaders)
      → s.disconnects ≡ 0
      → s.proxy_trusted_header_client ≡ true
      → s.receiver_as_header_client ≡ bound
      → s.awaiting_send_headers ≡ 0
      → (s' : WebSocketProxy lib) × (run lib header_list fuel s
            (sends_headers headers ∷ send_headers_answered e answer ∷ [])
          ≡ done s')
        × (s'.messages
            ≡ s.messages
              ++ ask_send_headers headers ∷ []
              ++ (if is_ok e
                  then answer_send_headers net_ok (value_or answer lib.empty_request_headers) ∷ []
                  else []))
        × (s'.request.headers
            ≡ (if is_ok e then value_or answer lib.empty_request_headers else headers))
        × (s'.disconnects ≡ (if is_ok e then 0 else 1))
        × (s'.factory ≡ s.factory)
  unfolding run step handle on_before_send_headers on_before_request_complete
      on_before_send_headers_complete on_before_send_headers_complete_from_proxy
      on_before_start_transaction on_error
  run-sends_headers fuel s headers e answer here t b idle = elim (Bool-cases (is_ok e)) [
    | inl y ↦ rw (here, t, b, idle, y) (_, refl, refl, refl, refl, refl)
    | inr n ↦ rw (here, t, b, idle, n) (_, refl, sym (append-nil _), refl, refl, refl)
  ]

  -- For a request without isolation info, as every web socket's is, whose URL is not of chrome's
  -- own scheme, no listeners for headers, an empty URL that counts as empty and no earlier override
  -- or redirect: while both receivers are bound and no question about the response's headers is
  -- open, headers from the network service and the header client's answer make one exchange. The
  -- client is asked with an empty text in the place of the headers, and with the endpoint kept in
  -- the proxy in the place of the one that came; whichever code and URL the client answers, the
  -- network service gets OK with the client's headers, both receivers are bound again, and the
  -- response keeps the headers that came.
  pub run-receives_headers :
      (fuel : ℕ) (s : WebSocketProxy lib) (headers : String) (endpoint : Option ℕ) (e : NetError)
      (answer : Option String) (url : Option lib.Url)
      → s.disconnects ≡ 0
      → s.proxy_trusted_header_client ≡ true
      → s.receiver_as_header_client ≡ bound
      → s.receiver_as_handshake_client ≡ bound
      → s.awaiting_headers_received ≡ 0
      → is_empty s.handler.headers_received_callbacks ≡ true
      → lib.is_chrome_scheme s.request.url ≡ false
      → s.request.isolation_info ≡ none
      → s.override_headers ≡ none
      → lib.is_empty_url lib.empty_url ≡ true
      → is_empty_data_uri lib s.redirect_url ≡ false
      → (s' : WebSocketProxy lib) × (run lib header_list fuel s
            (receives_headers headers endpoint ∷ headers_received_answered e answer url ∷ [])
          ≡ done s')
        × (s'.messages
            ≡ s.messages
              ++ ask_headers_received "" s.remote_endpoint ∷ []
              ++ answer_headers_received net_ok answer ∷ [])
        × (s'.receiver_as_header_client ≡ bound)
        × (s'.receiver_as_handshake_client ≡ bound)
        × (s'.response_headers ≡ some (lib.parse_headers headers))
        × (s'.disconnects ≡ 0)
  unfolding run step handle on_headers_received continue_to_headers_received after_headers_received
      pause_incoming_method_call_processing resume_incoming_method_call_processing
      on_headers_received_complete on_headers_received_complete_from_proxy
      Handler.on_headers_received apply_effects
  run-receives_headers fuel s headers endpoint e answer url here t b b' idle quiet plain i o empty
        data_uri =
      let s₁ : WebSocketProxy lib = record s {
        on_headers_received_callback = true;
        response_headers = some (lib.parse_headers headers);
      } in
      let chrome = ap lib.is_chrome_scheme (request_url-remake_ctx lib s₁) ∙ plain in
      let no_tab = ap lib.is_empty_url (tab_origin-remake_ctx lib s₁ i) ∙ empty in
      rw (here, t, b, no_tab, quiet, chrome, b', o, idle, data_uri)
        (_, refl, refl, refl, refl, refl, refl)
