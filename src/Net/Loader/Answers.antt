-- ===== src/Net/Loader/Answers.antt =====
-- Late answers to a request of dumb/browser/net/dumb_proxying_url_loader_factory.cc: the
-- `next_callback` that the request handler gave to a listener is called while the request waits in
-- RestartInternal, or after it is gone.
use dumb_browser.Base.{
  ℕ, ◌<◌, ◌==◌, ◌≡◌, refl, subst, ap, Bool, true, false, ◌&&◌, none, some, List, [], ◌∷◌, is_ok,
  is_pending, is_empty, length, drop, All, Bool-cases, inl, inr, NetError, Exec, done, ◌>>=◌, arith,
}
use dumb_browser.Base.Dict.{lookup-insert_self, lookup-erase_self}
use dumb_browser.Net.Libraries.{NetLibraries, ComputeRedirectInfo}
use dumb_browser.Net.RequestInfo.{RequestInfo, on_before_request}
use dumb_browser.Net.RequestInfo.Made.{make_ctx_lem}
use dumb_browser.Net.Handler.{
  Handler, is_internal_scheme, run_next_callback, on_url_request_destroyed,
}
use dumb_browser.Net.Handler.Loop.{KeepsInfo, first_stop}
use dumb_browser.Net.Handler.Entry.{registered, on_before_url_request_lem}
use dumb_browser.Net.Handler.Completion.{asks_new_url, settle}
use dumb_browser.Net.Handler.Resumed.{
  Write, KeepsWritten, resumed, answers, Settles, Waits, Waits-first_stop, Waits-resumed,
  run_next_callback-resumed,
}
use package.dumb_browser.Net.Loader.{
  InProgressRequest, Continuation, before_send_headers, pause_if_bound, remake_ctx, apply_effects,
  remove_request, after_handler,
}
use package.dumb_browser.Net.Loader.Requests.{restart_internal, after_before_url_request}
use package.dumb_browser.Net.Loader.Refused.{verdict}

module _ (lib : NetLibraries) where
  -- The listener that a request waits for writes into the info and calls its `next_callback`.
  unfoldable pub listener_answered :
      ℕ → Write lib → InProgressRequest lib → Exec (InProgressRequest lib)
  listener_answered fuel write s = elim s.ctx [
    | none ↦ done s
    | some ctx ↦
        run_next_callback lib fuel s.handler (write ctx) >>= λ ran. done (after_handler lib s ran)
  ]

  unfoldable pub listeners_answered :
      ℕ → List (Write lib) → InProgressRequest lib → Exec (InProgressRequest lib)
  listeners_answered fuel [] s = done s
  listeners_answered fuel (write ∷ writes) s =
      listener_answered fuel write s >>= λ s'. listeners_answered fuel writes s'

  -- A listener that answers after its request is gone, however that ended, changes nothing but the
  -- info that it wrote into: no task is posted, no redirect is written and nothing is sent.
  pub listener_answered-remove_request :
      (fuel : ℕ) (s : InProgressRequest lib) (ctx : RequestInfo lib) (write : Write lib)
      → s.ctx ≡ some ctx
      → KeepsWritten lib write
      → listener_answered fuel write (remove_request lib s)
        ≡ done (record (remove_request lib s) { ctx = some (write ctx) })
  unfolding listener_answered remove_request on_url_request_destroyed run_next_callback
      apply_effects
  listener_answered-remove_request fuel s ctx write here keeps =
      rw here (
        ground (arith, (keeps ctx).1, lookup-erase_self ctx.request_identifier s.handler.callbacks))

  module _ (compute : ComputeRedirectInfo lib) where
    -- The handler that holds the request's callback.
    abbrev holding : InProgressRequest lib → Handler lib (Continuation lib)
    holding s = registered lib s.handler (remake_ctx lib s) before_send_headers

    -- The request when its listeners have come to `v`, which may be that one of them waits.
    abbrev pub landed : InProgressRequest lib → NetError × RequestInfo lib → InProgressRequest lib
    landed s v =
        let s' =
          after_handler lib (record s { request_completed = false; redirect_url = lib.empty_url })
            (settle lib (holding s) before_send_headers v) in
        record s' { proxied_client_receiver = pause_if_bound lib s'.proxied_client_receiver }

    pub restart_internal-landed :
        (fuel : ℕ) (pipe_created : Bool) (s : InProgressRequest lib)
        → is_empty s.handler.before_url_request_callbacks ≡ false
        → is_internal_scheme lib (remake_ctx lib s) ≡ false
        → All (KeepsInfo lib) s.handler.before_url_request_callbacks
        → length s.handler.before_url_request_callbacks < fuel
        → restart_internal lib compute fuel pipe_created s ≡ done (landed s (verdict lib compute s))
    unfolding restart_internal after_before_url_request
    restart_internal-landed fuel pipe_created s some_listener external keep lt =
        let made =
          make_ctx_lem lib s.request s.render_process_id s.frame_tree_node_id s.request_id
            s.browser_context s.ctx in
        rw
          (
            on_before_url_request_lem lib fuel s.handler (remake_ctx lib s) before_send_headers keep
                made.3.0 lt,
            some_listener,
            external,
          )
          refl

    -- The request while a listener waits, with the info that it waits with.
    abbrev waiting : InProgressRequest lib → RequestInfo lib → InProgressRequest lib
    waiting s ctx = record s {
      ctx = some ctx;
      handler = holding s;
      request_completed = false;
      redirect_url = lib.empty_url;
      proxied_client_receiver = pause_if_bound lib s.proxied_client_receiver;
    }

    landed-pending :
        (s : InProgressRequest lib) (rv : NetError) (ctx : RequestInfo lib)
        → is_pending rv ≡ true
        → landed s (rv, ctx) ≡ waiting s ctx
    unfolding apply_effects
    landed-pending s rv ctx p = rw p refl

    -- An answer in a request that waits leads to where it would have landed with that verdict.
    waiting-landed :
        (s : InProgressRequest lib) (ctx end : RequestInfo lib) (rv : NetError)
        → after_handler lib (waiting s ctx) (settle lib (holding s) before_send_headers (rv, end))
          ≡ landed s (rv, end)
    unfolding apply_effects
    waiting-landed s ctx end rv = elim (Bool-cases (is_pending rv)) [
      | inl p ↦ rw p refl
      | inr np ↦ elim (Bool-cases (is_ok rv && asks_new_url lib end)) [
        | inl a ↦ elim (Bool-cases (end.request_identifier == s.request_id)) [
          | inl own ↦ rw (np, a, own) refl
          | inr other ↦ rw (np, a, other) refl
        ]
        | inr a ↦ rw (np, a) refl
      ]
    ]

    listener_answered-landed :
        (fuel : ℕ) (s : InProgressRequest lib) (ctx : RequestInfo lib) (write : Write lib)
        → All (KeepsInfo lib) s.handler.before_url_request_callbacks
        → KeepsWritten lib write
        → Waits lib (holding s) before_send_headers ctx
        → length s.handler.before_url_request_callbacks < fuel
        → listener_answered fuel write (waiting s ctx)
          ≡ done (landed s (resumed lib s.handler.before_url_request_callbacks write ctx))
    unfolding listener_answered
    listener_answered-landed fuel s ctx write keep keeps w lt =
        let (rv, end) = resumed lib s.handler.before_url_request_callbacks write ctx in
        rw
          (run_next_callback-resumed lib fuel (holding s) before_send_headers ctx write keep keeps w
            lt)
          (ap (λ s'. done s') (waiting-landed s ctx end rv))

    pub listeners_answered-landed :
        (fuel : ℕ) (s : InProgressRequest lib) (v : NetError × RequestInfo lib)
        (writes : List (Write lib))
        → All (KeepsInfo lib) s.handler.before_url_request_callbacks
        → Waits lib (holding s) before_send_headers v.1
        → Settles lib s.handler.before_url_request_callbacks writes v
        → length s.handler.before_url_request_callbacks < fuel
        → listeners_answered fuel writes (landed s v)
          ≡ done (landed s (answers lib s.handler.before_url_request_callbacks writes v))
    unfolding listeners_answered
    listeners_answered-landed fuel s v [] keep w np lt = refl
    listeners_answered-landed fuel s v (write ∷ writes) keep w (p, keeps, rest) lt =
        let end = resumed lib s.handler.before_url_request_callbacks write v.1 in
        rw (landed-pending s v.0 v.1 p, listener_answered-landed fuel s v.1 write keep keeps w lt)
          (listeners_answered-landed fuel s end writes keep
            (Waits-resumed lib (holding s) before_send_headers v.1 write keep keeps w) rest lt)

    pub verdict-Waits :
        (s : InProgressRequest lib)
        → All (KeepsInfo lib) s.handler.before_url_request_callbacks
        → Waits lib (holding s) before_send_headers (verdict lib compute s).1
    verdict-Waits s keep =
        let made = remake_ctx lib s in
        let ctx : RequestInfo lib = record made {
          has_new_url = true;
          event_type = on_before_request;
        } in
        let fresh =
          (make_ctx_lem lib s.request s.render_process_id s.frame_tree_node_id s.request_id
            s.browser_context s.ctx).3.0 in
        let from : Waits lib (holding s) before_send_headers ctx = record {
          registered_callback =
              lookup-insert_self made.request_identifier (some before_send_headers)
                s.handler.callbacks;
          in_first_phase = refl;
          may_redirect = refl;
          in_range = ground (arith, fresh);
        } in
        subst
          (λ i.
            Waits lib (holding s) before_send_headers
              (first_stop lib (drop i s.handler.before_url_request_callbacks) ctx).1)
          fresh (Waits-first_stop lib (holding s) before_send_headers ctx keep from)
