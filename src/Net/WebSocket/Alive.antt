-- ===== src/Net/WebSocket/Alive.antt =====
-- What holds of a web socket of dumb/browser/net/dumb_proxying_web_socket.cc between two events,
-- while it is there and after it is deleted.
use dumb_browser.Base.{
  ℕ, ◌==◌, ◌≡◌, refl, ◌∙◌, ap, Bool, true, false, ◌||◌, Option, List, [], ◌∷◌, ◌++◌, is_some, is_ok,
  is_empty, Bool-cases, ◌⊎◌, inl, inr, NetError, net_ok, Returns,
}
use dumb_browser.Net.Libraries.{NetLibraries}
use dumb_browser.Net.Handler.{Handler, on_before_start_transaction}
use package.dumb_browser.Net.WebSocket.{
  WebSocketProxy, Completion, Message, opening_handshake, connection_established, reset_with_reason,
  auth_required, ask_send_headers, ask_headers_received, run_factory, answer_send_headers,
  answer_headers_received, log, on_error,
}
use package.dumb_browser.Net.WebSocket.Handshake.{
  HeaderList, on_before_send_headers_complete, on_before_send_headers_complete_from_proxy,
  on_before_request_complete, on_before_send_headers,
}
use package.dumb_browser.Net.WebSocket.Step.{is_connected}

-- The URLs that the factory was run with.
abbrev pub factory_urls : (lib : NetLibraries) → List (Message lib) → List lib.Url
factory_urls lib [] = []
factory_urls lib (run_factory url headers trusted ∷ ms) = url ∷ factory_urls lib ms
factory_urls lib (m ∷ ms) = factory_urls lib ms

module _ (lib : NetLibraries) where
  factory_urls-++ :
      (ms : List (Message lib)) (m : Message lib)
      → factory_urls lib (ms ++ m ∷ []) ≡ factory_urls lib ms ++ factory_urls lib (m ∷ [])
  factory_urls-++ [] m = refl
  factory_urls-++ (run_factory url headers trusted ∷ ms) m =
      ap (λ us. url ∷ us) (factory_urls-++ ms m)
  factory_urls-++ (opening_handshake ∷ ms) m = factory_urls-++ ms m
  factory_urls-++ (connection_established ∷ ms) m = factory_urls-++ ms m
  factory_urls-++ (reset_with_reason n d ∷ ms) m = factory_urls-++ ms m
  factory_urls-++ (auth_required ∷ ms) m = factory_urls-++ ms m
  factory_urls-++ (ask_send_headers h ∷ ms) m = factory_urls-++ ms m
  factory_urls-++ (ask_headers_received h e ∷ ms) m = factory_urls-++ ms m
  factory_urls-++ (answer_send_headers e h ∷ ms) m = factory_urls-++ ms m
  factory_urls-++ (answer_headers_received e h ∷ ms) m = factory_urls-++ ms m

  -- What no event of a started web socket changes before its end.
  pub record Kept (h : Handler lib Completion) (tasks : List (Completion × NetError))
      (chrome forwarding auth is_done : Bool) (disconnects : ℕ) : Type 0 where
    pub quiet_headers : is_empty h.headers_received_callbacks ≡ true
    pub idle : is_empty tasks ≡ true
    pub plain : chrome ≡ false
    pub forwards : forwarding ≡ true
    pub has_auth : auth ≡ true
    pub not_done : is_done ≡ false
    pub here : disconnects ≡ 0

  module _ (url : lib.Url) where
    pub record Alive (s : WebSocketProxy lib) : Type 0 where
      pub kept :
          Kept s.handler s.tasks
            (lib.is_chrome_scheme s.request.url)
            s.forwarding_handshake_client
            s.proxy_auth_handler
            s.is_done
            s.disconnects
      pub has_ctx : is_some s.ctx ≡ true
      pub connected : is_connected s.receiver_as_handshake_client ≡ true
      pub header_connected :
          is_connected s.receiver_as_header_client ≡ s.proxy_trusted_header_client
      pub unasked : (s.proxy_trusted_header_client || s.awaiting_send_headers == 0) ≡ true
      pub ran : factory_urls lib s.messages ≡ url ∷ []

    pub record Gone (s : WebSocketProxy lib) : Type 0 where
      pub is_over : s.is_done ≡ true
      pub deleted : s.disconnects ≡ 1
      pub ran : factory_urls lib s.messages ≡ url ∷ []

    abbrev pub Stage : WebSocketProxy lib → Type 0
    Stage s = Alive s ⊎ Gone s

    pub log-ran :
        (m : Message lib) (s : WebSocketProxy lib)
        → factory_urls lib (m ∷ []) ≡ []
        → factory_urls lib s.messages ≡ url ∷ []
        → factory_urls lib (s.messages ++ m ∷ []) ≡ url ∷ []
    log-ran m s e r = factory_urls-++ s.messages m ∙ rw (e, r) refl

    pub log-Alive :
        (m : Message lib) (s : WebSocketProxy lib)
        → factory_urls lib (m ∷ []) ≡ []
        → Alive s
        → Alive (log lib m s)
    log-Alive m s e a = record {
      kept = a.kept;
      has_ctx = a.has_ctx;
      connected = a.connected;
      header_connected = a.header_connected;
      unasked = a.unasked;
      ran = log-ran m s e a.ran;
    }

    pub on_error-Gone :
        (s : WebSocketProxy lib) (e : NetError)
        → s.disconnects ≡ 0
        → factory_urls lib s.messages ≡ url ∷ []
        → Gone (on_error lib s e)
    unfolding on_error
    on_error-Gone s e h r = record { is_over = refl; deleted = rw h refl; ran = r }

    pub on_before_send_headers_complete-Alive :
        (headers : HeaderList lib) (s : WebSocketProxy lib)
        → s.proxy_trusted_header_client ≡ true
        → Alive s
        → Returns Stage (on_before_send_headers_complete lib headers s net_ok)
    unfolding on_before_send_headers_complete
    on_before_send_headers_complete-Alive headers s t a =
        elim (Bool-cases s.on_before_send_headers_callback) [
          | inl c ↦
              rw (c, t)
                (inl (record {
                  kept = a.kept;
                  has_ctx = a.has_ctx;
                  connected = a.connected;
                  header_connected = a.header_connected ∙ t;
                  unasked = refl;
                  ran = log-ran _ s refl a.ran;
                }))
          | inr c ↦
              rw (c, t)
                (inl (record {
                  kept = a.kept;
                  has_ctx = a.has_ctx;
                  connected = a.connected;
                  header_connected = a.header_connected ∙ t;
                  unasked = refl;
                  ran = a.ran;
                }))
        ]

    pub on_before_send_headers_complete_from_proxy-Alive :
        (header_list : HeaderList lib) (s : WebSocketProxy lib) (e : NetError)
        (headers : Option lib.RequestHeaders)
        → s.proxy_trusted_header_client ≡ true
        → Alive s
        → Returns Stage (on_before_send_headers_complete_from_proxy lib header_list s e headers)
    unfolding on_before_send_headers_complete_from_proxy on_before_start_transaction
    on_before_send_headers_complete_from_proxy-Alive header_list s e headers t a =
        elim (Bool-cases (is_ok e)) [
          | inr n ↦ rw n (inr (on_error-Gone s e a.kept.here a.ran))
          | inl y ↦ rw y (
              on_before_send_headers_complete-Alive header_list _ t (record {
                kept = a.kept;
                has_ctx = refl;
                connected = a.connected;
                header_connected = a.header_connected;
                unasked = a.unasked;
                ran = a.ran;
              }))
        ]

    pub on_before_send_headers-Alive :
        (header_list : HeaderList lib) (s : WebSocketProxy lib) (headers : lib.RequestHeaders)
        → s.proxy_trusted_header_client ≡ true
        → Alive s
        → Returns Stage (on_before_send_headers lib header_list s headers)
    unfolding on_before_send_headers on_before_request_complete
    on_before_send_headers-Alive header_list s headers t a = rw t (
        inl (record {
          kept = a.kept;
          has_ctx = a.has_ctx;
          connected = a.connected;
          header_connected = a.header_connected ∙ t;
          unasked = refl;
          ran = log-ran _ s refl a.ran;
        }))
