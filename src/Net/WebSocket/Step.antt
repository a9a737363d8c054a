-- ===== src/Net/WebSocket/Step.antt =====
-- The life of a `DumbProxyingWebSocket` of dumb/browser/net/dumb_proxying_web_socket.cc as a
-- sequence of events, after the factory has run: calls over the three receivers, which arrive only
-- while those are bound and not paused, answers of the header client to calls that are still open,
-- the loss of the connection, and the tasks of the UI thread. Nothing arrives at a deleted proxy.
use dumb_browser.Base.{
  ℕ, ◌-◌, ◌==◌, String, Bool, true, false, Option, List, [], ◌∷◌, if◌then◌else◌, NetError,
  err_failed, Exec, done, fault, null_pointer, ◌>>=◌,
}
use dumb_browser.Net.Libraries.{NetLibraries}
use dumb_browser.Net.Loader.{Pipe, unbound, bound}
use package.dumb_browser.Net.WebSocket.{
  WebSocketProxy, Completion, to_start_request, before_request_complete,
  before_send_headers_complete, headers_received_complete, opening_handshake,
  connection_established, auth_required, log, on_error, on_mojo_connection_error,
}
use package.dumb_browser.Net.WebSocket.Handshake.{
  HeaderList, continue_to_start_request, on_before_send_headers_complete,
  on_before_send_headers_complete_from_proxy, on_before_request_complete, web_socket_factory_run,
  on_before_send_headers,
}
use package.dumb_browser.Net.WebSocket.Headers.{
  on_headers_received_complete_from_proxy, on_headers_received_complete, on_headers_received,
}

pub data Event (lib : NetLibraries) : Type 0 where
  -- over `receiver_as_handshake_client_`
  handshake_started failed : Event lib
  connected : Option ℕ → Event lib
  -- over `receiver_as_auth_handler_`
  needs_auth : Event lib
  -- over `receiver_as_header_client_`
  sends_headers : lib.RequestHeaders → Event lib
  receives_headers : String → Option ℕ → Event lib
  -- the header client's answers
  send_headers_answered : NetError → Option lib.RequestHeaders → Event lib
  headers_received_answered : NetError → Option String → Option lib.Url → Event lib
  connection_lost : ℕ → String → Event lib
  run_task : Event lib

abbrev pub delivers : Pipe → Bool
delivers bound = true
delivers _ = false

abbrev pub is_connected : Pipe → Bool
is_connected unbound = false
is_connected _ = true

module _ (lib : NetLibraries) where
  -- A call on a remote that is not bound is a null pointer.
  unfoldable pub on_opening_handshake_started : WebSocketProxy lib → Exec (WebSocketProxy lib)
  on_opening_handshake_started s =
      if s.forwarding_handshake_client
      then done (log lib opening_handshake s)
      else fault null_pointer

  unfoldable pub on_failure : WebSocketProxy lib → WebSocketProxy lib
  on_failure s = s

  unfoldable pub on_connection_established :
      WebSocketProxy lib → Option ℕ → Exec (WebSocketProxy lib)
  on_connection_established s remote_endpoint =
      if s.forwarding_handshake_client
      then done (
          on_error lib
            (record (log lib connection_established s) { remote_endpoint = remote_endpoint })
            err_failed)
      else fault null_pointer

  unfoldable pub on_auth_required : WebSocketProxy lib → Exec (WebSocketProxy lib)
  on_auth_required s =
      if s.proxy_auth_handler then done (log lib auth_required s) else fault null_pointer

  module _ (header_list : HeaderList lib) where
    -- A callback that the request handler was given is run.
    unfoldable pub run_completion :
        WebSocketProxy lib → Completion → NetError → Exec (WebSocketProxy lib)
    run_completion s to_start_request rv = continue_to_start_request lib header_list s rv
    run_completion s before_request_complete rv = on_before_request_complete lib header_list s rv
    run_completion s before_send_headers_complete rv =
        on_before_send_headers_complete lib header_list s rv
    run_completion s headers_received_complete rv = on_headers_received_complete lib s rv

    unfoldable pub run_first_task :
        WebSocketProxy lib → List (Completion × NetError) → Exec (WebSocketProxy lib)
    run_first_task s [] = done s
    run_first_task s ((k, rv) ∷ tasks) = run_completion (record s { tasks = tasks }) k rv

    unfoldable pub handle : ℕ → WebSocketProxy lib → Event lib → Exec (WebSocketProxy lib)
    unfolding on_opening_handshake_started on_failure on_connection_established on_auth_required
    handle fuel s handshake_started =
        if delivers s.receiver_as_handshake_client then on_opening_handshake_started s else done s
    handle fuel s failed = done (on_failure s)
    handle fuel s (connected endpoint) =
        if delivers s.receiver_as_handshake_client
        then on_connection_established s endpoint
        else done s
    handle fuel s needs_auth = if s.receiver_as_auth_handler then on_auth_required s else done s
    handle fuel s (sends_headers headers) =
        if delivers s.receiver_as_header_client
        then on_before_send_headers lib header_list s headers
        else done s
    handle fuel s (receives_headers headers endpoint) =
        if delivers s.receiver_as_header_client
        then on_headers_received lib fuel s headers endpoint
        else done s
    handle fuel s (send_headers_answered error_code headers) =
        if s.awaiting_send_headers == 0
        then done s
        else on_before_send_headers_complete_from_proxy lib header_list
            (record s { awaiting_send_headers = s.awaiting_send_headers - 1 }) error_code headers
    handle fuel s (headers_received_answered error_code headers url) =
        if s.awaiting_headers_received == 0
        then done s
        else on_headers_received_complete_from_proxy lib
            (record s { awaiting_headers_received = s.awaiting_headers_received - 1 }) error_code
            headers url
    handle fuel s (connection_lost reason description) =
        if is_connected s.receiver_as_handshake_client
        then done (on_mojo_connection_error lib s reason description)
        else done s
    handle fuel s run_task = run_first_task s s.tasks

    unfoldable pub step : ℕ → WebSocketProxy lib → Event lib → Exec (WebSocketProxy lib)
    step fuel s e = if s.disconnects == 0 then handle fuel s e else done s

    unfoldable pub run : ℕ → WebSocketProxy lib → List (Event lib) → Exec (WebSocketProxy lib)
    run fuel s [] = done s
    run fuel s (e ∷ es) = step fuel s e >>= λ s'. run fuel s' es

    -- `WebSocketFactoryRun`, and then the events.
    unfoldable pub live :
        ℕ
        → lib.Url
        → List (String × String)
        → Bool
        → Bool
        → WebSocketProxy lib
        → List (Event lib)
        → Exec (WebSocketProxy lib)
    live fuel url additional_headers has_auth_handler has_header_client s es =
        web_socket_factory_run lib header_list fuel url additional_headers has_auth_handler
          has_header_client s
        >>= λ s'. run fuel s' es
