-- ===== src/Net/WebSocket/Tasks.antt =====
-- The task that the request handler posts for a web socket of
-- dumb/browser/net/dumb_proxying_web_socket.cc.
use dumb_browser.Base.{
  ℕ, ◌+◌, ◌≡◌, refl, sym, ◌∙◌, ap, subst, Bool, true, false, not, ◌&&◌, [], ◌∷◌, ◌++◌,
  if◌then◌else◌, is_ok, Bool-cases, inl, inr, NetError, err_io_pending, Exec, done, fault, no_fuel,
  Returns, Returns-weaken, ◌>>=◌, arith,
}
use mathlib.Core.List.{append-nil}
use dumb_browser.Net.Libraries.{NetLibraries}
use dumb_browser.Net.Handler.{on_before_start_transaction}
use package.dumb_browser.Net.WebSocket.{
  WebSocketProxy, Completion, to_start_request, before_request_complete,
  before_send_headers_complete, headers_received_complete, run_factory, is_empty_data_uri, on_error,
}
use package.dumb_browser.Net.WebSocket.Handshake.{
  HeaderList, continue_to_start_request, on_before_send_headers_complete,
  on_before_send_headers_complete_from_proxy, on_before_request_complete, continue_start,
  start_continuation,
}
use package.dumb_browser.Net.WebSocket.Headers.{on_headers_received_complete}
use package.dumb_browser.Net.WebSocket.Step.{
  Event, run_task, run_completion, run_first_task, handle, step, run,
}

module _ (lib : NetLibraries) where
  bind-done : (m : Exec (WebSocketProxy lib)) → (m >>= λ s. done s) ≡ m
  bind-done (done s) = refl
  bind-done (fault f) = refl
  bind-done no_fuel = refl

  module _ (headers : HeaderList lib) where
    run-one_task :
        (fuel : ℕ) (s : WebSocketProxy lib) (k : Completion) (rv : NetError)
        → s.disconnects ≡ 0
        → s.tasks ≡ (k, rv) ∷ []
        → run lib headers fuel s (run_task ∷ [])
          ≡ run_completion lib headers (record s { tasks = [] }) k rv
    unfolding run step handle run_first_task
    run-one_task fuel s k rv here ts = simp (here, ts) (bind-done _)

    -- Whatever a web socket waited for, an error that is handed to it ends it: the proxy is done,
    -- tells its owner to delete it, and sends nothing more.
    pub run_completion-refused :
        (s : WebSocketProxy lib) (k : Completion) (rv : NetError)
        → is_ok rv ≡ false
        → run_completion lib headers s k rv ≡ done (on_error lib s rv)
    unfolding run_completion continue_to_start_request on_before_request_complete
        on_before_send_headers_complete on_headers_received_complete
    run_completion-refused s to_start_request rv n = rw n refl
    run_completion-refused s before_request_complete rv n = rw n refl
    run_completion-refused s before_send_headers_complete rv n = rw n refl
    run_completion-refused s headers_received_complete rv n = rw n refl

    abbrev Started : WebSocketProxy lib → WebSocketProxy lib → Type 0
    Started s s' =
        (s'.messages
          ≡ s.messages
            ++ run_factory s.request.url
                (if s.proxy_trusted_header_client then [] else headers s.request.headers)
                s.proxy_trusted_header_client
              ∷ [])
        × (s'.disconnects ≡ s.disconnects)

    run_completion-Started :
        (s : WebSocketProxy lib) (rv : NetError)
        → is_ok rv ≡ true
        → s.factory ≡ true
        → s.on_before_send_headers_callback ≡ false
        → Returns (Started s) (run_completion lib headers s (start_continuation lib headers s) rv)
    unfolding run_completion continue_to_start_request on_before_request_complete
        on_before_send_headers_complete on_before_send_headers_complete_from_proxy
        on_before_start_transaction
    run_completion-Started s rv y fc cb = elim (Bool-cases s.proxy_trusted_header_client) [
      | inl t ↦ rw (t, y, fc) (refl, refl)
      | inr t ↦ rw (t, y, fc, cb) (refl, refl)
    ]

    -- The message that a start ends with, if it is let pass.
    abbrev pub Outcome : Bool → WebSocketProxy lib → WebSocketProxy lib → Type 0
    Outcome goes s s' =
        (s'.messages
          ≡ s.messages
            ++ (if goes
                then run_factory s.request.url
                    (if s.proxy_trusted_header_client then [] else headers s.request.headers)
                    s.proxy_trusted_header_client
                  ∷ []
                else []))
        × (s'.disconnects ≡ (if goes then 0 else 1))

    pub continue_start-pending :
        (s : WebSocketProxy lib)
        → continue_start lib headers s err_io_pending
          ≡ done (if is_empty_data_uri lib s.redirect_url then on_error lib s err_io_pending else s)
    unfolding continue_start
    continue_start-pending s = elim (Bool-cases (is_empty_data_uri lib s.redirect_url)) [
      | inl e ↦ simp e refl
      | inr e ↦ simp e refl
    ]

    refused-Outcome :
        (s : WebSocketProxy lib) (rv : NetError)
        → s.disconnects ≡ 0
        → Outcome false s (on_error lib s rv)
    unfolding on_error
    refused-Outcome s rv here = (sym (append-nil s.messages), ap (λ n. n + 1) here)

    run-deleted :
        (fuel : ℕ) (s : WebSocketProxy lib) (rv : NetError) (e : Event lib)
        → s.disconnects ≡ 0
        → run lib headers fuel (on_error lib s rv) (e ∷ []) ≡ done (on_error lib s rv)
    unfolding run step on_error
    run-deleted fuel s rv e here = simp here refl

    Started-Outcome :
        (s s' : WebSocketProxy lib) → s.disconnects ≡ 0 → Started s s' → Outcome true s s'
    Started-Outcome s s' here (ms, ds) = (ms, ds ∙ here)

    -- A task that was posted for a start, with its result.
    pub run-Outcome :
        (fuel : ℕ) (s : WebSocketProxy lib) (rv : NetError)
        → s.tasks ≡ (start_continuation lib headers s, rv) ∷ []
        → s.disconnects ≡ 0
        → s.factory ≡ true
        → s.on_before_send_headers_callback ≡ false
        → Returns (Outcome (is_ok rv) s) (run lib headers fuel s (run_task ∷ []))
    run-Outcome fuel s rv ts here fc cb = elim (Bool-cases (is_ok rv)) [
      | inl y ↦
          simp (y, run-one_task fuel s _ rv here ts)
            (Returns-weaken (Started (record s { tasks = [] })) (Outcome true s) _
              (λ s' r. Started-Outcome s s' here r)
              (run_completion-Started (record s { tasks = [] }) rv y fc cb))
      | inr n ↦
          simp
            (
              n,
              run-one_task fuel s _ rv here ts,
              run_completion-refused (record s { tasks = [] }) (start_continuation lib headers s) rv
                  n,
            )
            (refused-Outcome (record s { tasks = [] }) rv here)
    ]

    pub continue_start-Outcome :
        (fuel : ℕ) (s : WebSocketProxy lib) (rv : NetError)
        → s.tasks ≡ (start_continuation lib headers s, rv) ∷ []
        → s.disconnects ≡ 0
        → s.factory ≡ true
        → s.on_before_send_headers_callback ≡ false
        → Returns (Outcome (is_ok rv && not (is_empty_data_uri lib s.redirect_url)) s) (
            continue_start lib headers s err_io_pending >>= λ s'.
            run lib headers fuel s' (run_task ∷ []))
    continue_start-Outcome fuel s rv ts here fc cb =
        elim (Bool-cases (is_empty_data_uri lib s.redirect_url)) [
          | inl e ↦ ground (
            arith,
            e,
            continue_start-pending s,
            run-deleted fuel s err_io_pending run_task here,
            refused-Outcome s err_io_pending here,
          )
          | inr e ↦
              let kept : is_ok rv ≡ (is_ok rv && not (is_empty_data_uri lib s.redirect_url)) =
                ground (arith, e) in
              subst
                (λ b. Returns (Outcome b s) (
                  continue_start lib headers s err_io_pending >>= λ s'.
                  run lib headers fuel s' (run_task ∷ [])))
                kept (simp (continue_start-pending s, e) (run-Outcome fuel s rv ts here fc cb))
        ]
