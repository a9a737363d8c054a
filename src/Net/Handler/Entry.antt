-- ===== src/Net/Handler/Entry.antt =====
-- The two entry points of the handler, on every branch.
use dumb_browser.Base.{
  ℕ, ◌<◌, ◌≡◌, refl, ap, true, not, ◌&&◌, ◌||◌, Option, none, some, [], ◌∷◌, if◌then◌else◌,
  is_empty, length, drop, All, net_ok, err_io_pending, Exec, done, arith,
}
use dumb_browser.Base.Dict.{insert, lookup-insert_self}
use dumb_browser.Net.Libraries.{NetLibraries}
use dumb_browser.Net.RequestInfo.{RequestInfo, EventType, on_before_request}
use dumb_browser.Net.SecurityHeaders.{remove_trackable_security_headers_for_third_party}
use package.dumb_browser.Net.Handler.{
  Handler, post_task, Ran, is_internal_scheme, complete, run_next_callback, on_before_url_request,
  on_headers_received,
}
use package.dumb_browser.Net.Handler.Loop.{KeepsInfo, first_stop}
use package.dumb_browser.Net.Handler.Completion.{settle, run_next_callback-settle}

module _ (lib : NetLibraries) {K : Type 0} where
  abbrev pub registered : Handler lib K → RequestInfo lib → K → Handler lib K
  registered h ctx callback = record h {
    callbacks = insert ctx.request_identifier (some callback) h.callbacks;
  }

  -- For an info on which no listener has run, listeners that leave the handler's bookkeeping in it
  -- alone, and fuel for one round more than there are listeners: a request of an internal scheme,
  -- and any request while there are no listeners, goes on at once and nothing changes; any other is
  -- answered "pending", its callback is registered, and it is settled by the first listener that
  -- does not answer OK, or with OK if all do.
  pub on_before_url_request_lem :
      (fuel : ℕ) (h : Handler lib K) (ctx : RequestInfo lib) (callback : K)
      → All (KeepsInfo lib) h.before_url_request_callbacks
      → ctx.next_url_request_index ≡ 0
      → length h.before_url_request_callbacks < fuel
      → on_before_url_request lib fuel h ctx callback
        ≡ done (
            if is_empty h.before_url_request_callbacks || is_internal_scheme lib ctx
            then (net_ok, record { handler = h; ctx = ctx; effects = [] })
            else (
              err_io_pending,
              settle lib (registered h ctx callback) callback (
                  first_stop lib h.before_url_request_callbacks
                    (record ctx { has_new_url = true; event_type = on_before_request })),
            ))
  unfolding on_before_url_request
  on_before_url_request_lem fuel h ctx callback keep fresh lt =
      let ctx' : RequestInfo lib = record ctx {
        has_new_url = true;
        event_type = on_before_request;
      } in
      let from : ℕ → Exec (Ran lib K) = λ i. done (
        settle lib (registered h ctx callback) callback
          (first_stop lib (drop i h.before_url_request_callbacks) ctx')) in
      ground (
        arith,
        run_next_callback-settle lib fuel (registered h ctx callback) ctx' callback keep
            (lookup-insert_self ctx.request_identifier (some callback) h.callbacks) refl refl
            (omega arith) (omega arith),
        ap from fresh,
      )

  -- A response never faults the handler and never waits for a listener. It goes on at once if no
  -- headers listener is registered and the scheme is not chrome's; otherwise it is answered
  -- "pending" and its callback is posted with OK, whatever the registered listeners would answer.
  pub on_headers_received_lem :
      (fuel : ℕ) (h : Handler lib K) (ctx : RequestInfo lib) (callback : K)
      (original override : Option lib.ResponseHeaders)
      → let override' : Option lib.ResponseHeaders =
          if not (lib.is_empty_url ctx.tab_origin)
          then remove_trackable_security_headers_for_third_party lib ctx.request_url
              (lib.create_origin ctx.tab_origin)
              original
              override
          else override in
        on_headers_received lib fuel h ctx callback original override
        ≡ done (
            if is_empty h.headers_received_callbacks && not (lib.is_chrome_scheme ctx.request_url)
            then (net_ok, override', record { handler = h; ctx = ctx; effects = [] })
            else (
              err_io_pending,
              override',
              record {
                handler = record h {
                  callbacks =
                      insert ctx.request_identifier none
                        (insert ctx.request_identifier (some callback) h.callbacks);
                };
                ctx = record ctx {
                  event_type = EventType.on_headers_received;
                  original_response_headers = original;
                  has_override_response_headers = true;
                  has_allowed_unsafe_redirect_url = true;
                };
                effects = post_task callback net_ok ∷ [];
              },
            ))
  unfolding on_headers_received run_next_callback complete
  on_headers_received_lem fuel h ctx callback original override =
      ground (arith, lookup-insert_self ctx.request_identifier (some callback) h.callbacks)
