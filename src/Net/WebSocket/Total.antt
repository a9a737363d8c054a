-- ===== src/Net/WebSocket/Total.antt =====
-- The whole life of a web socket of dumb/browser/net/dumb_proxying_web_socket.cc without
-- listeners, and its end.
use dumb_browser.Base.{
  ℕ, ◌==◌, ◌≡◌, refl, ap, String, Bool, true, false, Option, List, [], ◌∷◌, if◌then◌else◌, is_empty,
  Bool-cases, inl, inr, NetError, err_failed, done, Returns, Returns->>=, Returns-weaken, returned,
  arith,
}
use dumb_browser.Net.Libraries.{NetLibraries, ResourceRequest}
use dumb_browser.Net.Handler.{Handler, on_before_start_transaction, on_before_url_request}
use package.dumb_browser.Net.WebSocket.{
  WebSocketProxy, Completion, run_factory, log, new_web_socket, on_mojo_connection_error,
  apply_effects, reset_with_reason, opening_handshake, auth_required, connection_established,
}
use package.dumb_browser.Net.WebSocket.Handshake.{
  HeaderList, set_headers, continue_to_start_request, on_before_send_headers_complete,
  on_before_send_headers_complete_from_proxy, on_before_request_complete, continue_start, start,
  web_socket_factory_run,
}
use package.dumb_browser.Net.WebSocket.Headers.{on_headers_received_complete_from_proxy}
use package.dumb_browser.Net.WebSocket.Step.{
  Event, handshake_started, failed, connected, needs_auth, sends_headers, receives_headers,
  send_headers_answered, headers_received_answered, connection_lost, run_task, delivers,
  on_opening_handshake_started, on_failure, on_connection_established, on_auth_required,
  run_first_task, handle, step, run, live,
}
use package.dumb_browser.Net.WebSocket.Alive.{
  factory_urls, Alive, Stage, log-ran, log-Alive, on_error-Gone,
  on_before_send_headers_complete_from_proxy-Alive, on_before_send_headers-Alive,
}
use package.dumb_browser.Net.WebSocket.Received.{
  on_headers_received-Alive, on_headers_received_complete_from_proxy-Alive, trusted-delivers,
}

module _ (lib : NetLibraries) where
  -- While the handler has no listeners, and as the empty URL's text is empty, running the factory
  -- on a new socket returns, and the one message it sends hands the request's URL on to the network
  -- service: without a header client, with the request's headers after the additional ones were
  -- set in turn, and with a header client, with no headers, since that client is asked for them.
  web_socket_factory_run-new :
      (headers : HeaderList lib) (fuel : ℕ) (url : lib.Url) (additional : List (String × String))
      (auth trusted : Bool) (h : Handler lib Completion) (request : ResourceRequest lib)
      (process frame : ℕ) (context : Option ℕ) (id : ℕ)
      → h.before_url_request_callbacks ≡ []
      → lib.spec lib.empty_url ≡ ""
      → (s : WebSocketProxy lib) × (web_socket_factory_run lib headers fuel url additional auth
            trusted
            (new_web_socket lib h request process frame context id)
          ≡ done s)
        × (s.messages
            ≡ run_factory request.url
                (if trusted then [] else headers (set_headers lib additional request.headers))
                trusted
              ∷ [])
  unfolding web_socket_factory_run start on_before_url_request new_web_socket continue_start
      apply_effects on_before_request_complete continue_to_start_request
      on_before_send_headers_complete on_before_send_headers_complete_from_proxy
      on_before_start_transaction
  web_socket_factory_run-new headers fuel url additional auth true h request process frame context
        id q e =
      rw (q, e) (_, refl, refl)
  web_socket_factory_run-new headers fuel url additional auth false h request process frame context
        id q e =
      rw (q, e) (_, refl, refl)

  new_web_socket-Alive :
      (headers : HeaderList lib) (fuel : ℕ) (url : lib.Url) (additional : List (String × String))
      (trusted : Bool) (h : Handler lib Completion) (request : ResourceRequest lib)
      (process frame : ℕ) (context : Option ℕ) (id : ℕ)
      → h.before_url_request_callbacks ≡ []
      → h.headers_received_callbacks ≡ []
      → lib.is_chrome_scheme request.url ≡ false
      → lib.spec lib.empty_url ≡ ""
      → Returns (Alive lib request.url) (
          web_socket_factory_run lib headers fuel url additional true trusted
            (new_web_socket lib h request process frame context id))
  unfolding web_socket_factory_run start on_before_url_request new_web_socket continue_start
      apply_effects on_before_request_complete continue_to_start_request
      on_before_send_headers_complete on_before_send_headers_complete_from_proxy
      on_before_start_transaction
  new_web_socket-Alive headers fuel url additional true h request process frame context id q qh p
        e =
      rw (q, e)
        (record {
          kept = record {
            quiet_headers = ap (λ ls. is_empty ls) qh;
            idle = refl;
            plain = p;
            forwards = refl;
            has_auth = refl;
            not_done = refl;
            here = refl;
          };
          has_ctx = refl;
          connected = refl;
          header_connected = refl;
          unasked = refl;
          ran = refl;
        })
  new_web_socket-Alive headers fuel url additional false h request process frame context id q qh p
        e =
      rw (q, e)
        (record {
          kept = record {
            quiet_headers = ap (λ ls. is_empty ls) qh;
            idle = refl;
            plain = p;
            forwards = refl;
            has_auth = refl;
            not_done = refl;
            here = refl;
          };
          has_ctx = refl;
          connected = refl;
          header_connected = refl;
          unasked = refl;
          ran = refl;
        })

  module _ (url : lib.Url) where
    idle-run_first_task :
        (header_list : HeaderList lib) (s : WebSocketProxy lib)
        (tasks : List (Completion × NetError))
        → is_empty tasks ≡ true
        → Alive lib url s
        → Returns (Stage lib url) (run_first_task lib header_list s tasks)
    unfolding run_first_task
    idle-run_first_task header_list s [] e a = inl a
    idle-run_first_task header_list s (t ∷ ts) e a = cc

    handle-Alive :
        (header_list : HeaderList lib) (fuel : ℕ) (s : WebSocketProxy lib) (e : Event lib)
        → Alive lib url s
        → Returns (Stage lib url) (handle lib header_list fuel s e)
    unfolding handle on_opening_handshake_started on_failure on_connection_established
        on_auth_required run_first_task on_mojo_connection_error
    handle-Alive hs fuel s handshake_started a =
        ground (arith, a.kept.forwards, a, log-Alive lib url opening_handshake s refl a)
    handle-Alive hs fuel s failed a = inl a
    handle-Alive hs fuel s (connected endpoint) a = ground (
      arith,
      a.kept.forwards,
      a,
      on_error-Gone lib url
          (record (log lib connection_established s) { remote_endpoint = endpoint }) err_failed
          a.kept.here (log-ran lib url connection_established s refl a.ran),
    )
    handle-Alive hs fuel s needs_auth a =
        ground (arith, a.kept.has_auth, a, log-Alive lib url auth_required s refl a)
    handle-Alive hs fuel s (sends_headers headers) a =
        elim (Bool-cases (delivers s.receiver_as_header_client)) [
          | inr n ↦ rw n (inl a)
          | inl y ↦
              rw y (
                on_before_send_headers-Alive lib url hs s headers (trusted-delivers lib url s a y)
                  a)
        ]
    handle-Alive hs fuel s (receives_headers headers endpoint) a =
        elim (Bool-cases (delivers s.receiver_as_header_client)) [
          | inr n ↦ rw n (inl a)
          | inl y ↦ rw y (
              on_headers_received-Alive lib url fuel s headers endpoint
                (trusted-delivers lib url s a y) a)
        ]
    handle-Alive hs fuel s (send_headers_answered e headers) a =
        elim (Bool-cases (s.awaiting_send_headers == 0)) [
          | inl z ↦ rw z (inl a)
          | inr n ↦
              let t : s.proxy_trusted_header_client ≡ true = ground (arith, n, a.unasked) in
              rw n (
                on_before_send_headers_complete_from_proxy-Alive lib url hs _ e headers t (record {
                  kept = a.kept;
                  has_ctx = a.has_ctx;
                  connected = a.connected;
                  header_connected = a.header_connected;
                  unasked = rw t refl;
                  ran = a.ran;
                }))
        ]
    handle-Alive hs fuel s (headers_received_answered e headers to) a =
        elim (Bool-cases (s.awaiting_headers_received == 0)) [
          | inl z ↦ rw z (inl a)
          | inr n ↦ rw n (
              Returns-weaken (Alive lib url) (Stage lib url)
                (on_headers_received_complete_from_proxy lib _ e headers to) (λ s' b. inl b)
                (on_headers_received_complete_from_proxy-Alive lib url _ e headers to (record {
                  kept = a.kept;
                  has_ctx = a.has_ctx;
                  connected = a.connected;
                  header_connected = a.header_connected;
                  unasked = a.unasked;
                  ran = a.ran;
                })))
        ]
    handle-Alive hs fuel s (connection_lost reason description) a = rw a.connected (
        inr (
          on_error-Gone lib url
            (record (log lib (reset_with_reason reason description) s) {
              forwarding_handshake_client = false;
            })
            err_failed a.kept.here
            (log-ran lib url (reset_with_reason reason description) s refl a.ran)))
    handle-Alive hs fuel s run_task a = idle-run_first_task hs s s.tasks a.kept.idle a

    pub step-Stage :
        (header_list : HeaderList lib) (fuel : ℕ) (s : WebSocketProxy lib) (e : Event lib)
        → Stage lib url s
        → Returns (Stage lib url) (step lib header_list fuel s e)
    unfolding step
    step-Stage hs fuel s e (inl a) = simp a.kept.here (handle-Alive hs fuel s e a)
    step-Stage hs fuel s e (inr g) = simp g.deleted (inr g)

    run-Stage :
        (header_list : HeaderList lib) (fuel : ℕ) (s : WebSocketProxy lib) (es : List (Event lib))
        → Stage lib url s
        → Returns (Stage lib url) (run lib header_list fuel s es)
    unfolding run
    run-Stage hs fuel s [] g = g
    run-Stage hs fuel s (e ∷ es) g =
        Returns->>= (Stage lib url) (Stage lib url) (step lib hs fuel s e) _
          (step-Stage hs fuel s e g) (λ s' g'. run-Stage hs fuel s' es g')

  Stage-disconnects :
      (url : lib.Url) (s : WebSocketProxy lib)
      → Stage lib url s
      → (factory_urls lib s.messages ≡ url ∷ []) × (s.disconnects ≡ (if s.is_done then 1 else 0))
  Stage-disconnects url s (inl a) = (a.ran, ground (arith, a.kept.not_done, a.kept.here))
  Stage-disconnects url s (inr g) = (g.ran, ground (arith, g.is_over, g.deleted))

  -- While the handler has no listeners, an authentication handler is there, the request's URL is
  -- not of chrome's own scheme and the empty URL's text is empty, a new web socket's whole life
  -- returns, without a null pointer, an unbound pipe or a second run of the factory, whatever the
  -- network service, the header client and the connection do; by then the factory was run once,
  -- with the request's URL, and the proxy has told its owner to delete it exactly once if the
  -- socket is done, and never if it is not.
  pub live-ends_once :
      (headers : HeaderList lib) (fuel : ℕ) (url : lib.Url) (additional : List (String × String))
      (trusted : Bool) (h : Handler lib Completion) (request : ResourceRequest lib)
      (process frame : ℕ) (context : Option ℕ) (id : ℕ) (es : List (Event lib))
      → h.before_url_request_callbacks ≡ []
      → h.headers_received_callbacks ≡ []
      → lib.is_chrome_scheme request.url ≡ false
      → lib.spec lib.empty_url ≡ ""
      → (s : WebSocketProxy lib) × (live lib headers fuel url additional true trusted
            (new_web_socket lib h request process frame context id)
            es
          ≡ done s)
        × (factory_urls lib s.messages ≡ request.url ∷ [])
        × (s.disconnects ≡ (if s.is_done then 1 else 0))
  unfolding live
  live-ends_once headers fuel url additional trusted h request process frame context id es q qh p
        e =
      let fresh = new_web_socket lib h request process frame context id in
      let started = web_socket_factory_run lib headers fuel url additional true trusted fresh in
      let end = returned (Stage lib request.url) _ (
        Returns->>= (Alive lib request.url) (Stage lib request.url) started _
          (new_web_socket-Alive headers fuel url additional trusted h request process frame context
            id q qh p e)
          (λ s a. run-Stage request.url headers fuel s es (inl a))) in
      let ended = Stage-disconnects request.url end.0 end.2 in (end.0, end.1, ended.0, ended.1)
