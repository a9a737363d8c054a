-- ===== src/Net/Handler/Twice.antt =====
-- A request that is answered twice: `RunNextCallback` of dumb/browser/net/dumb_request_handler.cc is
-- called again for an identifier whose callback was moved away.
use dumb_browser.Base.{
  ℕ, ◌≤◌, ◌<◌, ◌≡◌, refl, sym, ◌∙◌, ap, true, false, none, some, length, drop, All, All-drop,
  is_pending, NetError, done, fault, null_callback, arith,
}
use dumb_browser.Base.Dict.{lookup, insert, lookup-insert_self}
use dumb_browser.Net.Libraries.{NetLibraries}
use dumb_browser.Net.RequestInfo.{RequestInfo, on_before_request}
use package.dumb_browser.Net.Handler.{Handler, complete, run_next_callback}
use package.dumb_browser.Net.Handler.Loop.{KeepsInfo, first_stop, run_listeners-first_stop}
use package.dumb_browser.Net.Handler.Completion.{
  first_stop-KeepsInfo, settle, run_next_callback-settle,
}
use package.dumb_browser.Net.Handler.Resumed.{Waits}

module _ (lib : NetLibraries) {K : Type 0} where
  complete-moved :
      (h : Handler lib K) (ctx : RequestInfo lib) (rv : NetError)
      → lookup ctx.request_identifier h.callbacks ≡ some none
      → ctx.has_new_url ≡ true
      → complete lib h ctx rv ≡ fault null_callback
  unfolding complete
  complete-moved h ctx rv e new = ground arith

  -- The listeners that are left for an info.
  abbrev pub outcome : Handler lib K → RequestInfo lib → NetError × RequestInfo lib
  outcome h ctx =
      first_stop lib (drop ctx.next_url_request_index h.before_url_request_callbacks) ctx

  run_next_callback-moved :
      (fuel : ℕ) (h : Handler lib K) (ctx : RequestInfo lib)
      → All (KeepsInfo lib) h.before_url_request_callbacks
      → length h.before_url_request_callbacks < fuel
      → lookup ctx.request_identifier h.callbacks ≡ some none
      → ctx.event_type ≡ on_before_request
      → ctx.has_new_url ≡ true
      → ctx.next_url_request_index ≤ length h.before_url_request_callbacks
      → is_pending (outcome h ctx).0 ≡ false
      → run_next_callback lib fuel h ctx ≡ fault null_callback
  unfolding run_next_callback
  run_next_callback-moved fuel h ctx keep lt moved ev new le np =
      let ls = h.before_url_request_callbacks in
      let (rv, end) = outcome h ctx in
      let kept =
        first_stop-KeepsInfo lib (drop ctx.next_url_request_index ls) ctx
          (All-drop (KeepsInfo lib) ctx.next_url_request_index ls keep) in
      let moved' = ap (λ i. lookup i h.callbacks) kept.0 ∙ moved in
      ground (
        arith,
        run_listeners-first_stop lib fuel ls ctx keep le (omega (arith, lt)),
        complete-moved h end rv moved' (kept.2 ∙ new),
      )

  -- Let two infos of the same request wait for listeners that leave the handler's bookkeeping
  -- alone, with fuel for all of them: the same listener answers twice, or one that was asked before
  -- the request started again answers beside the one that was asked after. If neither comes to
  -- another listener that waits, the first answer settles the request, and the second one runs a
  -- callback that was moved away.
  pub run_next_callback_twice :
      (fuel : ℕ) (h : Handler lib K) (k : K) (ctx again : RequestInfo lib)
      → All (KeepsInfo lib) h.before_url_request_callbacks
      → length h.before_url_request_callbacks < fuel
      → Waits lib h k ctx
      → Waits lib h k again
      → again.request_identifier ≡ ctx.request_identifier
      → is_pending (outcome h ctx).0 ≡ false
      → is_pending (outcome h again).0 ≡ false
      → (run_next_callback lib fuel h ctx ≡ done (settle lib h k (outcome h ctx)))
        × (run_next_callback lib fuel (settle lib h k (outcome h ctx)).handler again
            ≡ fault null_callback)
  run_next_callback_twice fuel h k ctx again keep lt w w' same np np' =
      let end = outcome h ctx in
      let h' : Handler lib K = record h {
        callbacks = insert end.1.request_identifier none h.callbacks;
      } in
      let kept =
        first_stop-KeepsInfo lib (drop ctx.next_url_request_index h.before_url_request_callbacks)
          ctx
          (All-drop (KeepsInfo lib) ctx.next_url_request_index h.before_url_request_callbacks
            keep) in
      let moved : lookup again.request_identifier h'.callbacks ≡ some none =
        ap (λ i. lookup i h'.callbacks) (same ∙ sym kept.0)
        ∙ lookup-insert_self end.1.request_identifier none h.callbacks in
      let left : (settle lib h k end).handler ≡ h' = rw np refl in
      (
        run_next_callback-settle lib fuel h ctx k keep w.registered_callback w.in_first_phase
            w.may_redirect w.in_range (omega (arith, lt)),
        ap (λ g. run_next_callback lib fuel g again) left
            ∙ run_next_callback-moved fuel h' again keep lt moved w'.in_first_phase w'.may_redirect
                w'.in_range np',
      )
