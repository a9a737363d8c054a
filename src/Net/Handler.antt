-- ===== src/Net/Handler.antt =====
-- `DumbRequestHandler` of dumb/browser/net/dumb_request_handler.{h,cc}. `K` is what a
-- `net::CompletionOnceCallback` will do; an entry of `callbacks` whose callback was moved away
-- holds none. A listener may change the info it is given; if it answers ERR_IO_PENDING, its
-- `next_callback` is the call `run_next_callback` that the environment makes later.
pub mod Loop
pub mod Completion
pub mod Entry
pub mod Resumed
pub mod Twice
use dumb_browser.Base.{
  ℕ, zero, suc, ◌+◌, ◌≡◌, String, Bool, true, false, not, ◌&&◌, ◌||◌, Option, none, some, List, [],
  ◌∷◌, ◌++◌, if◌then◌else◌, is_none, is_some, is_empty, is_ok, is_pending, ◌==◌, length, get_elem?,
  str_eq, NetError, net_ok, err_io_pending, Exec, done, fault, no_fuel, ◌>>=◌, missing_entry,
  null_callback, null_pointer, index_out_of_range,
}
use dumb_browser.Base.Dict.{Dict, lookup, insert, erase}
use dumb_browser.Net.Libraries.{NetLibraries}
use dumb_browser.Net.RequestInfo.{RequestInfo, EventType, on_before_request}
use dumb_browser.Net.SecurityHeaders.{remove_trackable_security_headers_for_third_party}

abbrev pub Listener : NetLibraries → Type 0
Listener lib = RequestInfo lib → NetError × RequestInfo lib

abbrev pub HeadersListener : NetLibraries → Type 0
HeadersListener lib =
    Option lib.ResponseHeaders
    → Option lib.ResponseHeaders
    → RequestInfo lib
    → NetError × Option lib.ResponseHeaders × RequestInfo lib

pub record Handler (lib : NetLibraries) (K : Type 0) : Type 0 where
  pub before_url_request_callbacks : List (Listener lib)
  pub headers_received_callbacks : List (HeadersListener lib)
  pub callbacks : Dict (Option K)

-- What the handler does to the rest of the browser: `*ctx->new_url = url` for the request that owns
-- the info, and a task posted to the UI thread.
pub data Effect (lib : NetLibraries) (K : Type 0) : Type 0 where
  write_new_url : ℕ → lib.Url → Effect lib K
  post_task : K → NetError → Effect lib K

pub record Ran (lib : NetLibraries) (K : Type 0) : Type 0 where
  pub handler : Handler lib K
  pub ctx : RequestInfo lib
  pub effects : List (Effect lib K)

abbrev pub is_before_request : EventType → Bool
is_before_request on_before_request = true
is_before_request _ = false

module _ (lib : NetLibraries) where
  unfoldable pub is_internal_scheme : RequestInfo lib → Bool
  is_internal_scheme ctx =
      lib.is_extension_scheme ctx.request_url || lib.is_chrome_scheme ctx.request_url

  -- The `while` loop of `RunNextCallback`, with the `rv` it ends with.
  unfoldable pub run_listeners :
      ℕ → List (Listener lib) → RequestInfo lib → Exec (NetError × RequestInfo lib)
  run_listeners zero listeners ctx = no_fuel
  run_listeners (suc fuel) listeners ctx = elim (length listeners == ctx.next_url_request_index) [
    | true ↦ done (net_ok, ctx)
    | false ↦ elim (get_elem? listeners ctx.next_url_request_index) [
      | none ↦ fault index_out_of_range
      | some listener ↦
          let (rv, ctx') =
            listener (record ctx { next_url_request_index = ctx.next_url_request_index + 1 }) in
          elim (is_ok rv) [ true ↦ run_listeners fuel listeners ctx' | false ↦ done (rv, ctx') ]
    ]
  ]

  module _ {K : Type 0} where
    -- `SetupCallbacks` adds no listener.
    unfoldable pub new_handler : Handler lib K
    new_handler = record {
      before_url_request_callbacks = [];
      headers_received_callbacks = [];
      callbacks = [];
    }

    unfoldable pub is_request_identifier_valid : Handler lib K → ℕ → Bool
    is_request_identifier_valid h request_identifier =
        is_some (lookup request_identifier h.callbacks)

    unfoldable pub run_callback_for_request_identifier :
        Handler lib K → ℕ → NetError → Exec (Handler lib K × List (Effect lib K))
    run_callback_for_request_identifier h request_identifier rv =
        elim (lookup request_identifier h.callbacks) [
          | none ↦ fault missing_entry
          | some none ↦ fault null_callback
          | some (some k) ↦ done (
            record h { callbacks = insert request_identifier none h.callbacks },
            post_task k rv ∷ [],
          )
        ]

    -- `*ctx->new_url = GURL(ctx->new_url_spec)`, if a listener asked for another URL.
    unfoldable pub write_url : Handler lib K → RequestInfo lib → Exec (List (Effect lib K))
    unfolding is_request_identifier_valid
    write_url h ctx =
        if is_before_request ctx.event_type
          && not (str_eq ctx.new_url_spec "")
          && not (str_eq ctx.new_url_spec (lib.spec ctx.request_url))
          && is_request_identifier_valid h ctx.request_identifier
        then (if ctx.has_new_url
            then done (write_new_url ctx.request_identifier (lib.parse_url ctx.new_url_spec) ∷ [])
            else fault null_pointer)
        else done []

    -- What follows the loop.
    unfoldable pub complete : Handler lib K → RequestInfo lib → NetError → Exec (Ran lib K)
    unfolding run_callback_for_request_identifier write_url
    complete h ctx rv = do
      urls ← (if is_ok rv then write_url h ctx else done [])
      (h', posts) ← run_callback_for_request_identifier h ctx.request_identifier rv
      done (record { handler = h'; ctx = ctx; effects = urls ++ posts })

    unfoldable pub run_next_callback : ℕ → Handler lib K → RequestInfo lib → Exec (Ran lib K)
    run_next_callback fuel h ctx =
        if is_none (lookup ctx.request_identifier h.callbacks)
        then done (record { handler = h; ctx = ctx; effects = [] })
        else if is_before_request ctx.event_type
        then (run_listeners fuel h.before_url_request_callbacks ctx >>= λ (rv, ctx').
            if is_pending rv
            then done (record { handler = h; ctx = ctx'; effects = [] })
            else complete h ctx' rv)
        else complete h ctx net_ok

    -- The result is the net error returned, beside what was run.
    unfoldable pub on_before_url_request :
        ℕ → Handler lib K → RequestInfo lib → K → Exec (NetError × Ran lib K)
    on_before_url_request fuel h ctx callback =
        if is_empty h.before_url_request_callbacks || is_internal_scheme ctx
        then done (net_ok, record { handler = h; ctx = ctx; effects = [] })
        else (run_next_callback fuel
              (record h { callbacks = insert ctx.request_identifier (some callback) h.callbacks })
              (record ctx { has_new_url = true; event_type = on_before_request })
            >>= λ ran. done (err_io_pending, ran))

    unfoldable pub on_before_start_transaction :
        Handler lib K → RequestInfo lib → K → NetError × Handler lib K
    on_before_start_transaction h ctx callback = (net_ok, h)

    -- The overriding headers come back beside the result.
    unfoldable pub on_headers_received :
        ℕ
        → Handler lib K
        → RequestInfo lib
        → K
        → Option lib.ResponseHeaders
        → Option lib.ResponseHeaders
        → Exec (NetError × Option lib.ResponseHeaders × Ran lib K)
    on_headers_received fuel h ctx callback original override =
        let override' : Option lib.ResponseHeaders =
          if not (lib.is_empty_url ctx.tab_origin)
          then remove_trackable_security_headers_for_third_party lib ctx.request_url
              (lib.create_origin ctx.tab_origin) original override
          else override in
        if is_empty h.headers_received_callbacks && not (lib.is_chrome_scheme ctx.request_url)
        then done (net_ok, override', record { handler = h; ctx = ctx; effects = [] })
        else (run_next_callback fuel
              (record h { callbacks = insert ctx.request_identifier (some callback) h.callbacks })
              (record ctx {
                event_type = EventType.on_headers_received;
                original_response_headers = original;
                has_override_response_headers = true;
                has_allowed_unsafe_redirect_url = true;
              })
            >>= λ ran. done (err_io_pending, override', ran))

    unfoldable pub on_url_request_destroyed : Handler lib K → RequestInfo lib → Handler lib K
    on_url_request_destroyed h ctx =
        if is_some (lookup ctx.request_identifier h.callbacks)
        then record h { callbacks = erase ctx.request_identifier h.callbacks }
        else h
