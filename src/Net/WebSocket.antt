-- ===== src/Net/WebSocket.antt =====
-- `DumbProxyingWebSocket` of dumb/browser/net/dumb_proxying_web_socket.{h,cc}: its state, and what
-- ends it. The message log stands for the calls on mojo pipes and of the callbacks that the network
-- service handed over, oldest first; the tasks are those that the request handler posted for this
-- socket and that have not run yet. The two `awaiting` counters are the pipe's: how many calls of
-- the header client have not been answered. A connection's handles and the authentication data are
-- handed on unread and left out.
pub mod Handshake
pub mod Headers
pub mod Step
pub mod Info
pub mod Alive
pub mod Received
pub mod Total
pub mod Tasks
pub mod Listened
pub mod Answers
pub mod Later
pub mod Queued
pub mod Landed
pub mod Lives
pub mod Exchange
mod Tests
use dumb_browser.Base.{
  ℕ, ◌+◌, ◌==◌, String, Bool, true, false, Option, none, some, List, [], ◌∷◌, ◌++◌, if◌then◌else◌,
  str_eq, NetError,
}
use dumb_browser.Net.Libraries.{NetLibraries, ResourceRequest}
use dumb_browser.Net.RequestInfo.{RequestInfo, make_ctx}
use dumb_browser.Net.Handler.{
  Handler, Effect, write_new_url, post_task, Ran, on_url_request_destroyed,
}
use dumb_browser.Net.Loader.{Pipe, unbound}

-- What a `net::CompletionOnceCallback` of a web socket runs.
pub data Completion : Type 0 where
  to_start_request before_request_complete : Completion
  before_send_headers_complete headers_received_complete : Completion

pub data Message (lib : NetLibraries) : Type 0 where
  -- to `forwarding_handshake_client_`
  opening_handshake connection_established : Message lib
  reset_with_reason : ℕ → String → Message lib
  -- to `proxy_auth_handler_`
  auth_required : Message lib
  -- to `proxy_trusted_header_client_`
  ask_send_headers : lib.RequestHeaders → Message lib
  ask_headers_received : String → Option ℕ → Message lib
  -- `factory_`, with whether a trusted header client goes along
  run_factory : lib.Url → List (String × String) → Bool → Message lib
  -- the callbacks of `OnBeforeSendHeaders` and `OnHeadersReceived`
  answer_send_headers : NetError → lib.RequestHeaders → Message lib
  answer_headers_received : NetError → Option String → Message lib

pub record WebSocketProxy (lib : NetLibraries) : Type 0 where
  pub handler : Handler lib Completion
  pub ctx : Option (RequestInfo lib)
  pub process_id : ℕ
  pub frame_tree_node_id : ℕ
  pub browser_context : Option ℕ
  -- `request_id_generator_->id_`
  pub last_id : ℕ
  -- whether `factory_` has not run yet
  pub factory : Bool
  pub forwarding_handshake_client : Bool
  pub receiver_as_handshake_client : Pipe
  pub receiver_as_auth_handler : Bool
  pub receiver_as_header_client : Pipe
  pub request : ResourceRequest lib
  -- `response_.headers`
  pub response_headers : Option lib.ResponseHeaders
  pub override_headers : Option lib.ResponseHeaders
  -- the address, by a number; none is the default `IPEndPoint`
  pub remote_endpoint : Option ℕ
  pub redirect_url : lib.Url
  pub is_done : Bool
  pub request_id : ℕ
  pub proxy_url : lib.Url
  pub proxy_auth_handler : Bool
  pub proxy_trusted_header_client : Bool
  -- whether the callbacks are there
  pub on_headers_received_callback : Bool
  pub on_before_send_headers_callback : Bool
  pub awaiting_send_headers : ℕ
  pub awaiting_headers_received : ℕ
  -- how often `on_disconnect_` has run; it deletes the proxy
  pub disconnects : ℕ
  pub messages : List (Message lib)
  pub tasks : List (Completion × NetError)

-- `kEmptyDataURI` of dumb/common/network_constants.cc
abbrev pub empty_data_uri : String
empty_data_uri = "data:text/plain,"

module _ (lib : NetLibraries) where
  -- The constructor.
  unfoldable pub new_web_socket :
      Handler lib Completion → ResourceRequest lib → ℕ → ℕ → Option ℕ → ℕ → WebSocketProxy lib
  new_web_socket handler request process_id frame_tree_node_id browser_context last_id = record {
    handler = handler;
    ctx = none;
    process_id = process_id;
    frame_tree_node_id = frame_tree_node_id;
    browser_context = browser_context;
    last_id = last_id;
    factory = true;
    forwarding_handshake_client = true;
    receiver_as_handshake_client = unbound;
    receiver_as_auth_handler = false;
    receiver_as_header_client = unbound;
    request = request;
    response_headers = none;
    override_headers = none;
    remote_endpoint = none;
    redirect_url = lib.empty_url;
    is_done = false;
    request_id = 0;
    proxy_url = lib.empty_url;
    proxy_auth_handler = false;
    proxy_trusted_header_client = false;
    on_headers_received_callback = false;
    on_before_send_headers_callback = false;
    awaiting_send_headers = 0;
    awaiting_headers_received = 0;
    disconnects = 0;
    messages = [];
    tasks = [];
  }

  abbrev pub log : Message lib → WebSocketProxy lib → WebSocketProxy lib
  log m s = record s { messages = s.messages ++ m ∷ [] }

  -- `MakeCTX(request_, ..., ctx_)`
  abbrev pub remake_ctx : WebSocketProxy lib → RequestInfo lib
  remake_ctx s =
      make_ctx lib s.request s.process_id s.frame_tree_node_id s.request_id s.browser_context s.ctx

  -- `redirect_url_ == kEmptyDataURI`, how an ad blocker answers.
  abbrev pub is_empty_data_uri : lib.Url → Bool
  is_empty_data_uri url = str_eq (lib.spec url) empty_data_uri

  -- What the handler did, as this socket sees it.
  unfoldable pub apply_effects :
      List (Effect lib Completion) → WebSocketProxy lib → WebSocketProxy lib
  apply_effects [] s = s
  apply_effects (write_new_url i url ∷ es) s =
      apply_effects es (if i == s.request_id then record s { redirect_url = url } else s)
  apply_effects (post_task k rv ∷ es) s =
      apply_effects es (record s { tasks = s.tasks ++ (k, rv) ∷ [] })

  abbrev pub after_handler : WebSocketProxy lib → Ran lib Completion → WebSocketProxy lib
  after_handler s ran =
      apply_effects ran.effects (record s { ctx = some ran.ctx; handler = ran.handler })

  -- `OnError`, with the destructor. The code that it is given is not read.
  unfoldable pub on_error : WebSocketProxy lib → NetError → WebSocketProxy lib
  on_error s error_code = record s {
    is_done = true;
    disconnects = s.disconnects + 1;
    handler = elim s.ctx [ none ↦ s.handler | some c ↦ on_url_request_destroyed lib s.handler c ];
  }

  unfoldable pub on_mojo_connection_error : WebSocketProxy lib → ℕ → String → WebSocketProxy lib
  unfolding on_error
  on_mojo_connection_error s custom_reason description =
      on_error
        (record (log (reset_with_reason custom_reason description) s) {
          forwarding_handshake_client = false;
        })
        NetError.err_failed
