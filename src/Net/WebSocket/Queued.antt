-- ===== src/Net/WebSocket/Queued.antt =====
-- The whole life of a web socket under listeners: what holds of it while it waits in `Start` of
-- dumb/browser/net/dumb_proxying_web_socket.cc for them or for the task that follows them.
use dumb_browser.Base.{
  ℕ, ◌≡◌, refl, sym, subst, true, false, List, [], ◌∷◌, is_empty, is_ok, is_some, Bool-cases, ◌⊎◌,
  inl, inr, NetError, Returns, Returns->>=, Returns-weaken,
}
use dumb_browser.Net.Libraries.{NetLibraries}
use dumb_browser.Net.Handler.{on_before_start_transaction}
use dumb_browser.Net.Loader.{unbound}
use package.dumb_browser.Net.WebSocket.{WebSocketProxy, on_error}
use package.dumb_browser.Net.WebSocket.Handshake.{
  HeaderList, continue_to_start_request, on_before_send_headers_complete,
  on_before_send_headers_complete_from_proxy, on_before_request_complete, start_continuation,
}
use package.dumb_browser.Net.WebSocket.Step.{
  Event, handshake_started, failed, connected, needs_auth, sends_headers, receives_headers,
  send_headers_answered, headers_received_answered, connection_lost, run_task, on_failure,
  run_completion, run_first_task, handle, step, run,
}
use package.dumb_browser.Net.WebSocket.Alive.{Kept, Stage}
use package.dumb_browser.Net.WebSocket.Tasks.{run_completion-refused}
use package.dumb_browser.Net.WebSocket.Total.{step-Stage}

module _ (lib : NetLibraries) (headers : HeaderList lib) where
  -- No task waits, or the one that the listeners have come to.
  abbrev pub AwaitsStart : WebSocketProxy lib → Type 0
  AwaitsStart s =
      (s.tasks ≡ []) ⊎ ((rv : NetError) × (s.tasks ≡ (start_continuation lib headers s, rv) ∷ []))

  -- A socket whose factory has not run, and that nothing can reach but its task.
  pub record Queued (s : WebSocketProxy lib) : Type 0 where
    pub awaits : AwaitsStart s
    pub has_ctx : is_some s.ctx ≡ true
    pub quiet_headers : is_empty s.handler.headers_received_callbacks ≡ true
    pub plain : lib.is_chrome_scheme s.request.url ≡ false
    pub unstarted : s.factory ≡ true
    pub forwards : s.forwarding_handshake_client ≡ true
    pub unbound_handshake : s.receiver_as_handshake_client ≡ unbound
    pub no_auth_receiver : s.receiver_as_auth_handler ≡ false
    pub unbound_headers : s.receiver_as_header_client ≡ unbound
    pub has_auth : s.proxy_auth_handler ≡ true
    pub unasked : s.on_before_send_headers_callback ≡ false
    pub none_sent : s.awaiting_send_headers ≡ 0
    pub none_received : s.awaiting_headers_received ≡ 0
    pub not_done : s.is_done ≡ false
    pub here : s.disconnects ≡ 0
    pub nothing : s.messages ≡ []

  -- A socket that its listeners ended.
  pub record Refused (s : WebSocketProxy lib) : Type 0 where
    pub is_over : s.is_done ≡ true
    pub deleted : s.disconnects ≡ 1
    pub nothing : s.messages ≡ []

  abbrev pub Anywhere : lib.Url → WebSocketProxy lib → Type 0
  Anywhere url s = ((s.request.url ≡ url) × Queued s) ⊎ (Stage lib url s ⊎ Refused s)

  pub on_error-Refused :
      (s : WebSocketProxy lib) (e : NetError)
      → s.disconnects ≡ 0
      → s.messages ≡ []
      → Refused (on_error lib s e)
  unfolding on_error
  on_error-Refused s e h m = record { is_over = refl; deleted = rw h refl; nothing = m }

  run_completion-Queued :
      (url : lib.Url) (s : WebSocketProxy lib) (rv : NetError)
      → s.request.url ≡ url
      → Queued s
      → Returns (Anywhere url) (
          run_completion lib headers
            (record s { tasks = [] })
            (start_continuation lib headers s)
            rv)
  unfolding run_completion continue_to_start_request on_before_request_complete
      on_before_send_headers_complete on_before_send_headers_complete_from_proxy
      on_before_start_transaction
  run_completion-Queued url s rv own q = elim (Bool-cases (is_ok rv)) [
    | inr n ↦
        subst (Returns (Anywhere url))
          (sym (run_completion-refused lib headers _ (start_continuation lib headers s) rv n))
          (inr (inr (on_error-Refused (record s { tasks = [] }) rv q.here q.nothing)))
    | inl y ↦
        let kept : Kept lib s.handler [] (lib.is_chrome_scheme s.request.url)
            s.forwarding_handshake_client s.proxy_auth_handler s.is_done s.disconnects =
          record {
            quiet_headers = q.quiet_headers;
            idle = refl;
            plain = q.plain;
            forwards = q.forwards;
            has_auth = q.has_auth;
            not_done = q.not_done;
            here = q.here;
          } in
        elim (Bool-cases s.proxy_trusted_header_client) [
          | inl t ↦
              rw (t, y, q.unstarted)
                (inr (
                  inl (
                    inl (record {
                      kept = kept;
                      has_ctx = q.has_ctx;
                      connected = refl;
                      header_connected = refl;
                      unasked = refl;
                      ran = rw (q.nothing, own) refl;
                    }))))
          | inr t ↦
              rw (t, y, q.unstarted, q.unasked)
                (inr (
                  inl (
                    inl (record {
                      kept = kept;
                      has_ctx = refl;
                      connected = refl;
                      header_connected = rw q.unbound_headers refl;
                      unasked = rw q.none_sent refl;
                      ran = rw (q.nothing, own) refl;
                    }))))
        ]
  ]

  run_first_task-Queued :
      (url : lib.Url) (s : WebSocketProxy lib)
      → s.request.url ≡ url
      → Queued s
      → Returns (Anywhere url) (run_first_task lib headers s s.tasks)
  unfolding run_first_task
  run_first_task-Queued url s own q = elim q.awaits [
    | inl e ↦ simp e (inl (own, q))
    | inr (rv, e) ↦ simp e (run_completion-Queued url s rv own q)
  ]

  handle-Queued :
      (url : lib.Url) (fuel : ℕ) (s : WebSocketProxy lib) (e : Event lib)
      → s.request.url ≡ url
      → Queued s
      → Returns (Anywhere url) (handle lib headers fuel s e)
  unfolding handle on_failure
  handle-Queued url fuel s handshake_started own q = simp q.unbound_handshake (inl (own, q))
  handle-Queued url fuel s failed own q = inl (own, q)
  handle-Queued url fuel s (connected endpoint) own q = simp q.unbound_handshake (inl (own, q))
  handle-Queued url fuel s needs_auth own q = simp q.no_auth_receiver (inl (own, q))
  handle-Queued url fuel s (sends_headers hs) own q = simp q.unbound_headers (inl (own, q))
  handle-Queued url fuel s (receives_headers hs endpoint) own q =
      simp q.unbound_headers (inl (own, q))
  handle-Queued url fuel s (send_headers_answered e hs) own q = simp q.none_sent (inl (own, q))
  handle-Queued url fuel s (headers_received_answered e hs to) own q =
      simp q.none_received (inl (own, q))
  handle-Queued url fuel s (connection_lost reason description) own q =
      simp q.unbound_handshake (inl (own, q))
  handle-Queued url fuel s run_task own q = run_first_task-Queued url s own q

  step-Anywhere :
      (url : lib.Url) (fuel : ℕ) (s : WebSocketProxy lib) (e : Event lib)
      → Anywhere url s
      → Returns (Anywhere url) (step lib headers fuel s e)
  unfolding step
  step-Anywhere url fuel s e (inl (own, q)) = simp q.here (handle-Queued url fuel s e own q)
  step-Anywhere url fuel s e (inr (inl g)) =
      Returns-weaken (Stage lib url) (Anywhere url) (step lib headers fuel s e)
        (λ s' g'. inr (inl g')) (step-Stage lib url headers fuel s e g)
  step-Anywhere url fuel s e (inr (inr r)) = simp r.deleted (inr (inr r))

  pub run-Anywhere :
      (url : lib.Url) (fuel : ℕ) (s : WebSocketProxy lib) (es : List (Event lib))
      → Anywhere url s
      → Returns (Anywhere url) (run lib headers fuel s es)
  unfolding run
  run-Anywhere url fuel s [] g = g
  run-Anywhere url fuel s (e ∷ es) g =
      Returns->>= (Anywhere url) (Anywhere url) (step lib headers fuel s e) _
        (step-Anywhere url fuel s e g) (λ s' g'. run-Anywhere url fuel s' es g')
