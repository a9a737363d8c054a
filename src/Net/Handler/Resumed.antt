-- ===== src/Net/Handler/Resumed.antt =====
-- Listeners that answer later: the `next_callback` that `RunNextCallback` of
-- dumb/browser/net/dumb_request_handler.cc binds to itself and hands to each listener.
use dumb_browser.Base.{
  ℕ, ◌+◌, ◌≤◌, ◌<◌, ◌≡◌, refl, ◌∙◌, ap, true, false, some, List, [], ◌∷◌, is_pending, length, drop,
  length-drop, All, All-drop, NetError, done, arith,
}
use dumb_browser.Base.Dict.{lookup}
use dumb_browser.Net.Libraries.{NetLibraries}
use dumb_browser.Net.RequestInfo.{RequestInfo, on_before_request}
use package.dumb_browser.Net.Handler.{Listener, Handler, run_next_callback}
use package.dumb_browser.Net.Handler.Loop.{KeepsInfo, advance, first_stop}
use package.dumb_browser.Net.Handler.Completion.{
  first_stop-KeepsInfo, settle, run_next_callback-settle,
}

-- What a listener writes into the info before it calls its `next_callback`.
abbrev pub Write : NetLibraries → Type 0
Write lib = RequestInfo lib → RequestInfo lib

module _ (lib : NetLibraries) where
  abbrev pub KeepsWritten : Write lib → Type 0
  KeepsWritten write =
      (ctx : RequestInfo lib)
      → ((write ctx).next_url_request_index ≡ ctx.next_url_request_index)
        × ((write ctx).request_identifier ≡ ctx.request_identifier)
        × ((write ctx).event_type ≡ ctx.event_type)
        × ((write ctx).has_new_url ≡ ctx.has_new_url)

  -- What the listeners after the one that answers come to.
  abbrev pub resumed :
      List (Listener lib) → Write lib → RequestInfo lib → NetError × RequestInfo lib
  resumed ls write ctx = first_stop lib (drop (write ctx).next_url_request_index ls) (write ctx)

  -- What they come to from `v` when each of the writes is a late answer, in order.
  abbrev pub answers :
      List (Listener lib)
      → List (Write lib)
      → NetError × RequestInfo lib
      → NetError × RequestInfo lib
  answers ls [] v = v
  answers ls (write ∷ writes) v = answers ls writes (resumed ls write v.1)

  -- Each answer comes while a listener waits, and after the last one none does.
  abbrev pub Settles : List (Listener lib) → List (Write lib) → NetError × RequestInfo lib → Type 0
  Settles ls [] v = is_pending v.0 ≡ false
  Settles ls (write ∷ writes) v =
      (is_pending v.0 ≡ true) × KeepsWritten write × Settles ls writes (resumed ls write v.1)

  first_stop-index :
      (ls : List (Listener lib)) (ctx : RequestInfo lib)
      → All (KeepsInfo lib) ls
      → (first_stop lib ls ctx).1.next_url_request_index ≤ ctx.next_url_request_index + length ls
  first_stop-index [] ctx h = omega arith
  first_stop-index (l ∷ ls) ctx h =
      let c = advance lib ctx in ground (arith, h.0 c, first_stop-index ls (l c).1 h.1)

  -- Late answers are answers for the same request.
  pub request_identifier-answers :
      (ls : List (Listener lib)) (writes : List (Write lib)) (v : NetError × RequestInfo lib)
      → All (KeepsInfo lib) ls
      → Settles ls writes v
      → (answers ls writes v).1.request_identifier ≡ v.1.request_identifier
  request_identifier-answers ls [] v keep np = refl
  request_identifier-answers ls (write ∷ writes) v keep (p, keeps, rest) =
      let i = (write v.1).next_url_request_index in
      request_identifier-answers ls writes (resumed ls write v.1) keep rest
      ∙ (first_stop-KeepsInfo lib (drop i ls) (write v.1) (All-drop (KeepsInfo lib) i ls keep)).0
      ∙ (keeps v.1).1

  pub is_pending-answers :
      (ls : List (Listener lib)) (writes : List (Write lib)) (v : NetError × RequestInfo lib)
      → Settles ls writes v
      → is_pending (answers ls writes v).0 ≡ false
  is_pending-answers ls [] v np = np
  is_pending-answers ls (write ∷ writes) v (p, keeps, rest) =
      is_pending-answers ls writes (resumed ls write v.1) rest

  module _ {K : Type 0} where
    -- The request of the info waits for a listener, to go on with `k`.
    pub record Waits (h : Handler lib K) (k : K) (ctx : RequestInfo lib) : Type 0 where
      pub registered_callback : lookup ctx.request_identifier h.callbacks ≡ some (some k)
      pub in_first_phase : ctx.event_type ≡ on_before_request
      pub may_redirect : ctx.has_new_url ≡ true
      pub in_range : ctx.next_url_request_index ≤ length h.before_url_request_callbacks

    Waits-write :
        (h : Handler lib K) (k : K) (ctx : RequestInfo lib) (write : Write lib)
        → KeepsWritten write
        → Waits h k ctx
        → Waits h k (write ctx)
    Waits-write h k ctx write keep w =
        let same = keep ctx in
        record {
          registered_callback = ap (λ i. lookup i h.callbacks) same.1 ∙ w.registered_callback;
          in_first_phase = same.2 ∙ w.in_first_phase;
          may_redirect = same.3 ∙ w.may_redirect;
          in_range = ground (arith, w.in_range, same.0);
        }

    pub Waits-first_stop :
        (h : Handler lib K) (k : K) (ctx : RequestInfo lib)
        → All (KeepsInfo lib) h.before_url_request_callbacks
        → Waits h k ctx
        → Waits h k
            (first_stop lib (drop ctx.next_url_request_index h.before_url_request_callbacks) ctx).1
    Waits-first_stop h k ctx keep w =
        let left = drop ctx.next_url_request_index h.before_url_request_callbacks in
        let kept =
          All-drop (KeepsInfo lib) ctx.next_url_request_index h.before_url_request_callbacks keep in
        let same = first_stop-KeepsInfo lib left ctx kept in
        record {
          registered_callback = ap (λ i. lookup i h.callbacks) same.0 ∙ w.registered_callback;
          in_first_phase = same.1 ∙ w.in_first_phase;
          may_redirect = same.2 ∙ w.may_redirect;
          in_range = ground (
            arith,
            w.in_range,
            first_stop-index left ctx kept,
            length-drop h.before_url_request_callbacks ctx.next_url_request_index w.in_range,
          );
        }

    pub Waits-resumed :
        (h : Handler lib K) (k : K) (ctx : RequestInfo lib) (write : Write lib)
        → All (KeepsInfo lib) h.before_url_request_callbacks
        → KeepsWritten write
        → Waits h k ctx
        → Waits h k (resumed h.before_url_request_callbacks write ctx).1
    Waits-resumed h k ctx write keep keeps w =
        Waits-first_stop h k (write ctx) keep (Waits-write h k ctx write keeps w)

    pub run_next_callback-resumed :
        (fuel : ℕ) (h : Handler lib K) (k : K) (ctx : RequestInfo lib) (write : Write lib)
        → All (KeepsInfo lib) h.before_url_request_callbacks
        → KeepsWritten write
        → Waits h k ctx
        → length h.before_url_request_callbacks < fuel
        → run_next_callback lib fuel h (write ctx)
          ≡ done (settle lib h k (resumed h.before_url_request_callbacks write ctx))
    run_next_callback-resumed fuel h k ctx write keep keeps w lt =
        let w' = Waits-write h k ctx write keeps w in
        run_next_callback-settle lib fuel h (write ctx) k keep w'.registered_callback
          w'.in_first_phase w'.may_redirect w'.in_range (omega (arith, lt))
