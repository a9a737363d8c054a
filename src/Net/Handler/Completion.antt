-- ===== src/Net/Handler/Completion.antt =====
-- How `RunNextCallback` and `RunCallbackForRequestIdentifier` of
-- dumb/browser/net/dumb_request_handler.cc complete a request.
use dumb_browser.Base.{
  ℕ, ◌+◌, ◌≤◌, ◌<◌, ◌≡◌, ◌≢◌, refl, ◌∙◌, ap, Bool, true, false, not, ◌&&◌, Option, none, some, List,
  [], ◌∷◌, ◌++◌, if◌then◌else◌, is_ok, is_pending, str_eq, length, drop, All, All-drop, NetError,
  done, fault, null_callback, arith,
}
use dumb_browser.Base.Dict.{lookup, insert, lookup-erase, lookup-insert_self, lookup-erase_self}
use dumb_browser.Net.Libraries.{NetLibraries}
use dumb_browser.Net.RequestInfo.{RequestInfo, on_before_request}
use package.dumb_browser.Net.Handler.{
  Listener, Handler, Effect, write_new_url, post_task, Ran, is_request_identifier_valid,
  run_callback_for_request_identifier, complete, run_next_callback, on_url_request_destroyed,
}
use package.dumb_browser.Net.Handler.Loop.{KeepsInfo, advance, first_stop, run_listeners-first_stop}

module _ (lib : NetLibraries) where
  -- A listener asked for a URL other than the request's.
  abbrev pub asks_new_url : RequestInfo lib → Bool
  asks_new_url ctx =
      not (str_eq ctx.new_url_spec "") && not (str_eq ctx.new_url_spec (lib.spec ctx.request_url))

  pub first_stop-KeepsInfo :
      (ls : List (Listener lib)) (ctx : RequestInfo lib)
      → All (KeepsInfo lib) ls
      → ((first_stop lib ls ctx).1.request_identifier ≡ ctx.request_identifier)
        × ((first_stop lib ls ctx).1.event_type ≡ ctx.event_type)
        × ((first_stop lib ls ctx).1.has_new_url ≡ ctx.has_new_url)
  first_stop-KeepsInfo [] ctx h = (refl, refl, refl)
  first_stop-KeepsInfo (l ∷ ls) ctx h =
      let c = advance lib ctx in ground (arith, h.0 c, first_stop-KeepsInfo ls (l c).1 h.1)

  module _ {K : Type 0} where
    -- What becomes of a request whose callback is `k` when its listeners end with `rv`.
    abbrev pub settle : Handler lib K → K → NetError × RequestInfo lib → Ran lib K
    settle h k (rv, ctx) =
        if is_pending rv then record { handler = h; ctx = ctx; effects = [] } else record {
          handler = record h { callbacks = insert ctx.request_identifier none h.callbacks };
          ctx = ctx;
          effects =
              (if is_ok rv && asks_new_url ctx
                then write_new_url ctx.request_identifier (lib.parse_url ctx.new_url_spec) ∷ []
                else [])
              ++ post_task k rv ∷ [];
        }

    complete-settle :
        (h : Handler lib K) (ctx : RequestInfo lib) (rv : NetError) (k : K)
        → lookup ctx.request_identifier h.callbacks ≡ some (some k)
        → ctx.event_type ≡ on_before_request
        → ctx.has_new_url ≡ true
        → is_pending rv ≡ false
        → complete lib h ctx rv ≡ done (settle h k (rv, ctx))
    unfolding complete
    complete-settle h ctx rv k e ev new np = ground arith

    -- For a registered request in its first phase, listeners that leave the handler's bookkeeping
    -- in the info alone, and fuel for one round more than there are listeners left: the listeners
    -- run from where they stopped. If one is pending, nothing else happens; otherwise the callback
    -- is taken out of the map and posted exactly once with their result, behind the write of the
    -- URL that they asked for, if the result is OK.
    pub run_next_callback-settle :
        (fuel : ℕ) (h : Handler lib K) (ctx : RequestInfo lib) (k : K)
        → All (KeepsInfo lib) h.before_url_request_callbacks
        → lookup ctx.request_identifier h.callbacks ≡ some (some k)
        → ctx.event_type ≡ on_before_request
        → ctx.has_new_url ≡ true
        → ctx.next_url_request_index ≤ length h.before_url_request_callbacks
        → length h.before_url_request_callbacks < fuel + ctx.next_url_request_index
        → run_next_callback lib fuel h ctx
          ≡ done (
              settle h k (
                first_stop lib
                  (drop ctx.next_url_request_index h.before_url_request_callbacks)
                  ctx))
    unfolding run_next_callback
    run_next_callback-settle fuel h ctx k keep e ev new le lt =
        let ls = h.before_url_request_callbacks in
        let left = drop ctx.next_url_request_index ls in
        let end = first_stop lib left ctx in
        let same =
          first_stop-KeepsInfo left ctx
            (All-drop (KeepsInfo lib) ctx.next_url_request_index ls keep) in
        ground (
          arith,
          run_listeners-first_stop lib fuel ls ctx keep le lt,
          complete-settle h end.1 end.0 k (ap (λ i. lookup i h.callbacks) same.0 ∙ e) (same.1 ∙ ev)
              (same.2 ∙ new),
        )

    -- A callback runs at most once: completing the same request again, with any result, is a call
    -- of a callback that was moved away.
    run_callback_for_request_identifier_once :
        (h h' : Handler lib K) (i : ℕ) (rv again : NetError) (es : List (Effect lib K))
        → run_callback_for_request_identifier lib h i rv ≡ done (h', es)
        → run_callback_for_request_identifier lib h' i again ≡ fault null_callback
    unfolding run_callback_for_request_identifier
    run_callback_for_request_identifier_once h h' i rv again es e =
        ground (arith, lookup-insert_self {V = Option K} i none h.callbacks)

    -- After a request is destroyed its identifier is invalid, a late `next_callback` of it does
    -- nothing, and every other request keeps its callback.
    on_url_request_destroyed_lem :
        (fuel : ℕ) (h : Handler lib K) (ctx : RequestInfo lib) (j : ℕ)
        → j ≢ ctx.request_identifier
        → let h' = on_url_request_destroyed lib h ctx in
          (is_request_identifier_valid lib h' ctx.request_identifier ≡ false)
          × (run_next_callback lib fuel h' ctx
              ≡ done (record { handler = h'; ctx = ctx; effects = [] }))
          × (lookup j h'.callbacks ≡ lookup j h.callbacks)
    unfolding on_url_request_destroyed is_request_identifier_valid run_next_callback
    on_url_request_destroyed_lem fuel h ctx j ne = (
      ground (arith, lookup-erase_self ctx.request_identifier h.callbacks),
      ground (arith, lookup-erase_self ctx.request_identifier h.callbacks),
      ground (arith, lookup-erase ctx.request_identifier j h.callbacks),
    )
