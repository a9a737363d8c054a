-- ===== src/Net/WebSocket/Received.antt =====
-- The response's headers of a quiet web socket: the functions of
-- dumb/browser/net/dumb_proxying_web_socket.cc that pause and resume its receivers.
use dumb_browser.Base.{
  ℕ, ◌≡◌, refl, sym, ◌∙◌, ap, String, true, false, Option, none, some, if◌then◌else◌, is_some,
  Bool-cases, inl, inr, NetError, net_ok, Exec, done, ◌>>=◌, Returns, Returns->>=, Returns-weaken,
  returned, arith,
}
use dumb_browser.Net.Libraries.{NetLibraries}
use dumb_browser.Net.Handler
use dumb_browser.Net.Handler.{Handler, on_before_start_transaction, on_before_url_request}
use dumb_browser.Net.Loader.{Pipe, unbound, bound, paused}
use package.dumb_browser.Net.WebSocket.{
  WebSocketProxy, answer_headers_received, log, is_empty_data_uri, apply_effects,
}
use dumb_browser.Net.Loader.Responses.{pause, resume}
use package.dumb_browser.Net.WebSocket.Info.{request_url-remake_ctx}
use package.dumb_browser.Net.WebSocket.Headers.{
  header_pipe, on_headers_received, continue_to_headers_received, after_headers_received,
  pause_incoming_method_call_processing, resume_incoming_method_call_processing,
  on_headers_received_complete, on_headers_received_complete_from_proxy,
}
use package.dumb_browser.Net.WebSocket.Step.{delivers, is_connected}
use package.dumb_browser.Net.WebSocket.Alive.{Alive, Stage, log-ran, on_error-Gone}

delivers-is_connected : (p : Pipe) → delivers p ≡ true → is_connected p ≡ true
delivers-is_connected unbound e = e
delivers-is_connected bound e = refl
delivers-is_connected paused e = refl

pause-Returns : (p : Pipe) → is_connected p ≡ true → Returns (λ q. is_connected q ≡ true) (pause p)
pause-Returns unbound e = cc
pause-Returns bound e = refl
pause-Returns paused e = refl

resume-Returns :
    (p : Pipe) → is_connected p ≡ true → Returns (λ q. is_connected q ≡ true) (resume p)
resume-Returns unbound e = cc
resume-Returns bound e = refl
resume-Returns paused e = refl

module _ (lib : NetLibraries) where
  module _ (url : lib.Url) where
    abbrev moved : (Pipe → Exec Pipe) → WebSocketProxy lib → Exec (WebSocketProxy lib)
    moved f s = do
      handshake ← f s.receiver_as_handshake_client
      headers ← header_pipe lib f s
      done (record s {
        receiver_as_handshake_client = handshake;
        receiver_as_header_client = headers;
      })

    abbrev StillAlive : WebSocketProxy lib → WebSocketProxy lib → Type 0
    StillAlive s s' =
        Alive lib url s' × s'.proxy_trusted_header_client ≡ s.proxy_trusted_header_client

    moved-Alive :
        (f : Pipe → Exec Pipe)
        → ((p : Pipe) → is_connected p ≡ true → Returns (λ q. is_connected q ≡ true) (f p))
        → (s : WebSocketProxy lib) → Alive lib url s
        → Returns (StillAlive s) (moved f s)
    moved-Alive f g s a =
        let handshake =
          returned (λ q. is_connected q ≡ true) _ (g s.receiver_as_handshake_client a.connected) in
        elim (Bool-cases s.proxy_trusted_header_client) [
          | inr t ↦
              rw (handshake.1, t)
                (
                  record {
                    kept = a.kept;
                    has_ctx = a.has_ctx;
                    connected = handshake.2;
                    header_connected = a.header_connected ∙ t;
                    unasked = ground (arith, a.unasked);
                    ran = a.ran;
                  },
                  refl,
                )
          | inl t ↦
              let headers =
                returned (λ q. is_connected q ≡ true) _
                  (g s.receiver_as_header_client (a.header_connected ∙ t)) in
              rw (handshake.1, t, headers.1)
                (
                  record {
                    kept = a.kept;
                    has_ctx = a.has_ctx;
                    connected = handshake.2;
                    header_connected = headers.2;
                    unasked = refl;
                    ran = a.ran;
                  },
                  refl,
                )
        ]

    on_headers_received_complete-Alive :
        (s : WebSocketProxy lib)
        → s.proxy_trusted_header_client ≡ true
        → Alive lib url s
        → Returns (Stage lib url) (on_headers_received_complete lib s net_ok)
    unfolding on_headers_received_complete
    on_headers_received_complete-Alive s t a = rw t (
        inl (record {
          kept = a.kept;
          has_ctx = a.has_ctx;
          connected = a.connected;
          header_connected = a.header_connected ∙ t;
          unasked = refl;
          ran = log-ran lib url _ s refl a.ran;
        }))

    after_headers_received-Alive :
        (s : WebSocketProxy lib)
        → s.proxy_trusted_header_client ≡ true
        → Alive lib url s
        → Returns (Stage lib url) (after_headers_received lib s net_ok)
    unfolding after_headers_received pause_incoming_method_call_processing
    after_headers_received-Alive s t a = elim (Bool-cases (is_empty_data_uri lib s.redirect_url)) [
      | inl e ↦ rw e (inr (on_error-Gone lib url s net_ok a.kept.here a.ran))
      | inr e ↦ rw e (
          Returns->>= (StillAlive s) (Stage lib url) (pause_incoming_method_call_processing lib s) _
            (moved-Alive pause pause-Returns s a)
            (λ s' a'. on_headers_received_complete-Alive s' (a'.1 ∙ t) a'.0))
    ]

    pub on_headers_received-Alive :
        (fuel : ℕ) (s : WebSocketProxy lib) (headers : String) (endpoint : Option ℕ)
        → s.proxy_trusted_header_client ≡ true
        → Alive lib url s
        → Returns (Stage lib url) (on_headers_received lib fuel s headers endpoint)
    unfolding on_headers_received continue_to_headers_received Handler.on_headers_received
        apply_effects
    on_headers_received-Alive fuel s headers endpoint t a =
        let s₁ : WebSocketProxy lib = record s {
          on_headers_received_callback = true;
          response_headers = some (lib.parse_headers headers);
        } in
        let chrome = ap lib.is_chrome_scheme (request_url-remake_ctx lib s₁) ∙ a.kept.plain in
        rw (a.kept.quiet_headers, chrome)
          (after_headers_received-Alive _ t (record {
            kept = a.kept;
            has_ctx = refl;
            connected = a.connected;
            header_connected = a.header_connected;
            unasked = a.unasked;
            ran = a.ran;
          }))

    resumed-Alive :
        (s : WebSocketProxy lib)
        → Alive lib url s
        → Returns (Alive lib url) (resume_incoming_method_call_processing lib s)
    unfolding resume_incoming_method_call_processing
    resumed-Alive s a =
        Returns-weaken (StillAlive s) (Alive lib url) (resume_incoming_method_call_processing lib s)
          (λ s' r. r.0) (moved-Alive resume resume-Returns s a)

    pub trusted-delivers :
        (s : WebSocketProxy lib)
        → Alive lib url s
        → delivers s.receiver_as_header_client ≡ true
        → s.proxy_trusted_header_client ≡ true
    trusted-delivers s a y =
        sym a.header_connected ∙ delivers-is_connected s.receiver_as_header_client y

    overridden-Alive :
        (s : WebSocketProxy lib)
        → Alive lib url s
        → Alive lib url (
            if is_some s.override_headers
            then record s { response_headers = s.override_headers; override_headers = none }
            else s)
    overridden-Alive s a = elim (Bool-cases (is_some s.override_headers)) [
      | inl y ↦ simp y (record {
        kept = a.kept;
        has_ctx = a.has_ctx;
        connected = a.connected;
        header_connected = a.header_connected;
        unasked = a.unasked;
        ran = a.ran;
      })
      | inr n ↦ simp n a
    ]

    answered-Alive :
        (s : WebSocketProxy lib) (headers : Option String)
        → Alive lib url s
        → Alive lib url (
            if s.on_headers_received_callback
            then record (log lib (answer_headers_received net_ok headers) s) {
              on_headers_received_callback = false;
            }
            else s)
    answered-Alive s headers a = elim (Bool-cases s.on_headers_received_callback) [
      | inl y ↦ simp y (record {
        kept = a.kept;
        has_ctx = a.has_ctx;
        connected = a.connected;
        header_connected = a.header_connected;
        unasked = a.unasked;
        ran = log-ran lib url _ s refl a.ran;
      })
      | inr n ↦ simp n a
    ]

    pub on_headers_received_complete_from_proxy-Alive :
        (s : WebSocketProxy lib) (e : NetError) (headers : Option String) (to : Option lib.Url)
        → Alive lib url s
        → Returns (Alive lib url) (on_headers_received_complete_from_proxy lib s e headers to)
    unfolding on_headers_received_complete_from_proxy
    on_headers_received_complete_from_proxy-Alive s e headers to a =
        resumed-Alive _ (overridden-Alive _ (answered-Alive s headers a))
