-- ===== src/Net/WebSocket/Headers.antt =====
-- What happens to the response's headers: `OnHeadersReceived` to
-- `OnHeadersReceivedCompleteFromProxy` of dumb/browser/net/dumb_proxying_web_socket.cc.
use dumb_browser.Base.{
  ℕ, ◌+◌, String, true, false, not, ◌||◌, Option, none, some, if◌then◌else◌, is_ok, is_pending,
  is_some, is_blocked, NetError, net_ok, Exec, done, ◌>>=◌,
}
use dumb_browser.Net.Libraries.{NetLibraries}
use dumb_browser.Net.Loader.{Pipe}
use dumb_browser.Net.Loader.Responses.{pause, resume}
use dumb_browser.Net.Handler
use package.dumb_browser.Net.WebSocket.{
  WebSocketProxy, headers_received_complete, ask_headers_received, answer_headers_received, log,
  remake_ctx, is_empty_data_uri, after_handler, on_error,
}

module _ (lib : NetLibraries) where
  -- The header client's receiver takes part only if there is a header client behind it.
  abbrev pub header_pipe : (Pipe → Exec Pipe) → WebSocketProxy lib → Exec Pipe
  header_pipe f s =
      if s.proxy_trusted_header_client
      then f s.receiver_as_header_client
      else done s.receiver_as_header_client

  unfoldable pub pause_incoming_method_call_processing :
      WebSocketProxy lib → Exec (WebSocketProxy lib)
  pause_incoming_method_call_processing s = do
    handshake ← pause s.receiver_as_handshake_client
    headers ← header_pipe pause s
    done
        (record s { receiver_as_handshake_client = handshake; receiver_as_header_client = headers })

  unfoldable pub resume_incoming_method_call_processing :
      WebSocketProxy lib → Exec (WebSocketProxy lib)
  resume_incoming_method_call_processing s = do
    handshake ← resume s.receiver_as_handshake_client
    headers ← header_pipe resume s
    done
        (record s { receiver_as_handshake_client = handshake; receiver_as_header_client = headers })

  -- Neither the code nor the URL of the header client's answer is read.
  unfoldable pub on_headers_received_complete_from_proxy :
      WebSocketProxy lib → NetError → Option String → Option lib.Url → Exec (WebSocketProxy lib)
  unfolding resume_incoming_method_call_processing
  on_headers_received_complete_from_proxy s error_code headers url =
      let answered : WebSocketProxy lib =
        if s.on_headers_received_callback
        then record (log lib (answer_headers_received net_ok headers) s) {
          on_headers_received_callback = false;
        }
        else s in
      resume_incoming_method_call_processing (
        if is_some answered.override_headers
        then record answered {
          response_headers = answered.override_headers;
          override_headers = none;
        }
        else answered)

  abbrev pub override_text : Option lib.ResponseHeaders → String
  override_text none = ""
  override_text (some headers) = lib.raw_headers headers

  unfoldable pub on_headers_received_complete :
      WebSocketProxy lib → NetError → Exec (WebSocketProxy lib)
  on_headers_received_complete s error_code =
      if not (is_ok error_code)
      then done (on_error lib s error_code)
      else if s.proxy_trusted_header_client
      then done
          (record (log lib
            (ask_headers_received (override_text s.override_headers) s.remote_endpoint) s) {
              awaiting_headers_received = s.awaiting_headers_received + 1;
            })
      else on_headers_received_complete_from_proxy s error_code
          (some (override_text s.override_headers)) none

  -- What follows the call of the handler's `OnHeadersReceived`.
  unfoldable pub after_headers_received : WebSocketProxy lib → NetError → Exec (WebSocketProxy lib)
  unfolding pause_incoming_method_call_processing
  after_headers_received s result =
      if is_blocked result || is_empty_data_uri lib s.redirect_url
      then done (on_error lib s result)
      else (pause_incoming_method_call_processing s >>= λ paused.
          if is_pending result then done paused else on_headers_received_complete paused net_ok)

  unfoldable pub continue_to_headers_received : ℕ → WebSocketProxy lib → Exec (WebSocketProxy lib)
  continue_to_headers_received fuel s =
      Handler.on_headers_received lib fuel s.handler (remake_ctx lib s) headers_received_complete
        s.response_headers s.override_headers
      >>= λ (result, override, ran).
          after_headers_received (after_handler lib (record s { override_headers = override }) ran)
            result

  -- The endpoint that comes with the headers is not kept.
  unfoldable pub on_headers_received :
      ℕ → WebSocketProxy lib → String → Option ℕ → Exec (WebSocketProxy lib)
  on_headers_received fuel s headers remote_endpoint = continue_to_headers_received fuel (record s {
    on_headers_received_callback = true;
    response_headers = some (lib.parse_headers headers);
  })
