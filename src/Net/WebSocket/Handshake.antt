-- ===== src/Net/WebSocket/Handshake.antt =====
-- The way of a handshake to the network service: `WebSocketFactoryRun` to `ContinueToStartRequest`
-- of dumb/browser/net/dumb_proxying_web_socket.cc, and the header client's `OnBeforeSendHeaders`.
-- The fuel is the request handler's.
use dumb_browser.Base.{
  ℕ, ◌+◌, String, Bool, true, false, not, ◌||◌, Option, some, List, [], ◌∷◌, if◌then◌else◌,
  value_or, is_ok, is_pending, is_blocked, NetError, net_ok, Exec, done, fault, null_callback,
  ◌>>=◌,
}
use dumb_browser.Net.Libraries.{NetLibraries}
use dumb_browser.Net.Loader.{bound}
use dumb_browser.Net.Handler.{on_before_url_request, on_before_start_transaction}
use package.dumb_browser.Net.WebSocket.{
  WebSocketProxy, Completion, to_start_request, before_request_complete,
  before_send_headers_complete, ask_send_headers, run_factory, answer_send_headers, log, remake_ctx,
  is_empty_data_uri, after_handler, on_error,
}

-- How HttpRequestHeaders::Iterator goes over the headers.
abbrev pub HeaderList : NetLibraries → Type 0
HeaderList lib = lib.RequestHeaders → List (String × String)

module _ (lib : NetLibraries) where
  unfoldable pub set_headers : List (String × String) → lib.RequestHeaders → lib.RequestHeaders
  set_headers [] headers = headers
  set_headers ((name, value) ∷ more) headers =
      set_headers more (lib.set_request_header headers name value)

  module _ (header_list : HeaderList lib) where
    -- `factory_` can run once.
    unfoldable pub continue_to_start_request :
        WebSocketProxy lib → NetError → Exec (WebSocketProxy lib)
    continue_to_start_request s error_code =
        if not (is_ok error_code)
        then done (on_error lib s error_code)
        else if not s.factory
        then fault null_callback
        else (let trusted = s.proxy_trusted_header_client in
            let additional_headers : List (String × String) =
              if not trusted then header_list s.request.headers else [] in
            done (record (log lib (run_factory s.request.url additional_headers trusted) s) {
              factory = false;
              receiver_as_handshake_client = bound;
              receiver_as_auth_handler = true;
              receiver_as_header_client = if trusted then bound else s.receiver_as_header_client;
            }))

    unfoldable pub on_before_send_headers_complete :
        WebSocketProxy lib → NetError → Exec (WebSocketProxy lib)
    on_before_send_headers_complete s error_code =
        if not (is_ok error_code)
        then done (on_error lib s error_code)
        else (let answered : WebSocketProxy lib =
              if s.on_before_send_headers_callback
              then record (log lib (answer_send_headers error_code s.request.headers) s) {
                on_before_send_headers_callback = false;
              }
              else s in
            if not answered.proxy_trusted_header_client
            then continue_to_start_request answered error_code
            else done answered)

    -- `headers` is what the header client, or the request itself, has them to be.
    unfoldable pub on_before_send_headers_complete_from_proxy :
        WebSocketProxy lib → NetError → Option lib.RequestHeaders → Exec (WebSocketProxy lib)
    on_before_send_headers_complete_from_proxy s error_code headers =
        if not (is_ok error_code)
        then done (on_error lib s error_code)
        else (let s₁ : WebSocketProxy lib = record s {
          request = record s.request { headers = value_or headers lib.empty_request_headers };
        } in
            let ctx = remake_ctx lib s₁ in
            let (result, handler) =
              on_before_start_transaction lib s₁.handler ctx before_send_headers_complete in
            let s₂ : WebSocketProxy lib = record s₁ { ctx = some ctx; handler = handler } in
            if is_blocked result
            then done (on_error lib s₂ result)
            else if is_pending result
            then done s₂
            else on_before_send_headers_complete s₂ net_ok)

    unfoldable pub on_before_request_complete :
        WebSocketProxy lib → NetError → Exec (WebSocketProxy lib)
    on_before_request_complete s error_code =
        if not (is_ok error_code)
        then done (on_error lib s error_code)
        else if s.proxy_trusted_header_client
        then done (record (log lib (ask_send_headers s.request.headers) s) {
          awaiting_send_headers = s.awaiting_send_headers + 1;
        })
        else on_before_send_headers_complete_from_proxy s net_ok (some s.request.headers)

    -- The continuation that `Start` chooses, run at once or by the request handler.
    abbrev pub start_continuation : WebSocketProxy lib → Completion
    start_continuation s =
        if s.proxy_trusted_header_client then to_start_request else before_request_complete

    unfoldable pub continue_start : WebSocketProxy lib → NetError → Exec (WebSocketProxy lib)
    continue_start s result =
        if is_blocked result || is_empty_data_uri lib s.redirect_url
        then done (on_error lib s result)
        else if is_pending result
        then done s
        else if s.proxy_trusted_header_client
        then continue_to_start_request s net_ok
        else on_before_request_complete s net_ok

    unfoldable pub start : ℕ → WebSocketProxy lib → Exec (WebSocketProxy lib)
    start fuel s =
        let s₁ : WebSocketProxy lib = record s {
          last_id = s.last_id + 1;
          request_id = s.last_id + 1;
        } in
        on_before_url_request lib fuel s₁.handler (remake_ctx lib s₁) (start_continuation s₁)
        >>= λ (result, ran). continue_start (after_handler lib s₁ ran) result

    -- `has_auth_handler` and `has_header_client` are whether `auth_handler` and
    -- `trusted_header_client` are there.
    unfoldable pub web_socket_factory_run :
        ℕ
        → lib.Url
        → List (String × String)
        → Bool
        → Bool
        → WebSocketProxy lib
        → Exec (WebSocketProxy lib)
    unfolding set_headers
    web_socket_factory_run fuel url additional_headers has_auth_handler has_header_client s =
        let s₁ : WebSocketProxy lib = record s {
          proxy_url = url;
          forwarding_handshake_client = true;
          proxy_auth_handler = has_auth_handler;
          proxy_trusted_header_client = s.proxy_trusted_header_client || has_header_client;
        } in
        start fuel (
          if not s₁.proxy_trusted_header_client
          then record s₁ {
            request = record s₁.request {
              headers = set_headers additional_headers s₁.request.headers;
            };
          }
          else s₁)

    unfoldable pub on_before_send_headers :
        WebSocketProxy lib → lib.RequestHeaders → Exec (WebSocketProxy lib)
    on_before_send_headers s headers =
        on_before_request_complete
          (record s {
            request = record s.request { headers = headers };
            on_before_send_headers_callback = true;
          })
          net_ok
