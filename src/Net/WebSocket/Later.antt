-- ===== src/Net/WebSocket/Later.antt =====
-- A web socket under listeners that answer later, in `Start` of
-- dumb/browser/net/dumb_proxying_web_socket.cc.
use dumb_browser.Base.{
  ℕ, ◌<◌, ◌≡◌, refl, subst, String, Bool, true, false, Option, some, List, [], ◌∷◌, if◌then◌else◌,
  is_ok, is_pending, is_empty, length, drop, All, done, Returns, returned, ◌>>=◌, arith,
}
use dumb_browser.Base.Dict.{lookup-insert_self}
use dumb_browser.Net.Libraries.{NetLibraries, ResourceRequest}
use dumb_browser.Net.RequestInfo.{make_ctx, get_upload_data}
use dumb_browser.Net.Handler.{Handler, is_internal_scheme}
use dumb_browser.Net.Handler.Loop.{KeepsInfo, first_stop}
use dumb_browser.Net.Handler.Entry.{registered}
use dumb_browser.Net.Handler.Resumed.{Write, answers, Settles, Waits, Waits-first_stop}
use package.dumb_browser.Net.WebSocket.{
  WebSocketProxy, Completion, run_factory, new_web_socket, remake_ctx, is_empty_data_uri,
  apply_effects,
}
use package.dumb_browser.Net.WebSocket.Handshake.{
  HeaderList, set_headers, start, start_continuation, web_socket_factory_run,
}
use package.dumb_browser.Net.WebSocket.Step.{run_task, run, live}
use package.dumb_browser.Net.WebSocket.Info.{index-remake_ctx}
use package.dumb_browser.Net.WebSocket.Tasks.{Outcome, continue_start-pending}
use package.dumb_browser.Net.WebSocket.Listened.{numbered, listened_ctx, verdict, start-settle}
use package.dumb_browser.Net.WebSocket.Answers.{
  listeners_answered, Waiting, listeners_answered-Outcome,
}

module _ (lib : NetLibraries) (headers : HeaderList lib) where
  -- The socket while the first listener that waits has not answered.
  abbrev pub paused : WebSocketProxy lib → WebSocketProxy lib
  paused s = record (numbered lib s) {
    ctx = some (verdict lib s).1;
    handler =
        registered lib s.handler (remake_ctx lib (numbered lib s))
          (start_continuation lib headers s);
  }

  start-paused :
      (fuel : ℕ) (s : WebSocketProxy lib)
      → is_empty s.handler.before_url_request_callbacks ≡ false
      → is_internal_scheme lib (remake_ctx lib (numbered lib s)) ≡ false
      → All (KeepsInfo lib) s.handler.before_url_request_callbacks
      → length s.handler.before_url_request_callbacks < fuel
      → is_pending (verdict lib s).0 ≡ true
      → is_empty_data_uri lib s.redirect_url ≡ false
      → start lib headers fuel s ≡ done (paused s)
  unfolding apply_effects
  start-paused fuel s some_listener external keep lt p plain =
      rw (start-settle lib headers fuel s some_listener external keep lt, p)
        (rw (continue_start-pending lib headers (paused s), plain) refl)

  paused-Waiting :
      (s : WebSocketProxy lib)
      → All (KeepsInfo lib) s.handler.before_url_request_callbacks
      → s.tasks ≡ []
      → s.disconnects ≡ 0
      → s.factory ≡ true
      → s.on_before_send_headers_callback ≡ false
      → Waiting lib headers (paused s) (verdict lib s).1
  paused-Waiting s keep ts here fc cb =
      let k = start_continuation lib headers s in
      let made = remake_ctx lib (numbered lib s) in
      let h = registered lib s.handler made k in
      let from : Waits lib h k (listened_ctx lib s) = record {
        registered_callback =
            lookup-insert_self made.request_identifier (some k) s.handler.callbacks;
        in_first_phase = refl;
        may_redirect = refl;
        in_range = ground (arith, index-remake_ctx lib (numbered lib s));
      } in
      record {
        waits_with = refl;
        waits =
            subst
              (λ i.
                Waits lib h k
                  (first_stop lib (drop i s.handler.before_url_request_callbacks)
                    (listened_ctx lib s)).1)
              (index-remake_ctx lib (numbered lib s))
              (Waits-first_stop lib h k (listened_ctx lib s) keep from);
        keep = keep;
        no_task = ts;
        alive = here;
        unstarted = fc;
        unasked = cb;
      }

  -- The two halves of a start that waits, from a socket that is to be started.
  start-answered :
      (fuel : ℕ) (s : WebSocketProxy lib) (write : Write lib) (writes : List (Write lib))
      → is_empty s.handler.before_url_request_callbacks ≡ false
      → is_internal_scheme lib (remake_ctx lib (numbered lib s)) ≡ false
      → All (KeepsInfo lib) s.handler.before_url_request_callbacks
      → length s.handler.before_url_request_callbacks < fuel
      → Settles lib s.handler.before_url_request_callbacks (write ∷ writes) (verdict lib s)
      → s.tasks ≡ []
      → s.disconnects ≡ 0
      → s.factory ≡ true
      → s.on_before_send_headers_callback ≡ false
      → is_empty_data_uri lib s.redirect_url ≡ false
      → (start lib headers fuel s ≡ done (paused s))
        × Returns
            (Outcome lib headers
              (is_ok
                (answers lib s.handler.before_url_request_callbacks
                  (write ∷ writes)
                  (verdict lib s)).0)
              (paused s))
            (listeners_answered lib fuel (write ∷ writes) (paused s) >>= λ s'.
              run lib headers fuel s' (run_task ∷ []))
  start-answered fuel s write writes some_listener external keep lt settles ts here fc cb plain = (
    start-paused fuel s some_listener external keep lt settles.0 plain,
    listeners_answered-Outcome lib headers fuel (paused s) (verdict lib s) write writes
        (paused-Waiting s keep ts here fc cb) settles lt,
  )

  -- Let listeners that leave the handler's bookkeeping alone stand before a new web socket with a
  -- URL of no internal scheme, on enough fuel for all of them, with an empty text of the empty
  -- URL, and let one of them be pending. The factory runs and returns, with nothing sent and the
  -- proxy alive. Then let the listener that waits, and any number of others that come to wait
  -- after it, answer in turn, writing what they like into the info except the handler's
  -- bookkeeping, until one answer settles the request, and let the task run that the handler
  -- posts. If the listeners end with OK, the factory is run once, with the socket's own URL, even
  -- if they asked for the empty data URI; if they end with an error, nothing is sent, and the
  -- proxy is deleted once.
  pub live-answered_later :
      (fuel : ℕ) (url : lib.Url) (additional : List (String × String)) (auth trusted : Bool)
      (h : Handler lib Completion) (request : ResourceRequest lib) (process frame : ℕ)
      (context : Option ℕ) (id : ℕ) (write : Write lib) (writes : List (Write lib))
      → is_empty h.before_url_request_callbacks ≡ false
      → is_internal_scheme lib
          (remake_ctx lib (numbered lib (new_web_socket lib h request process frame context id)))
        ≡ false
      → All (KeepsInfo lib) h.before_url_request_callbacks
      → length h.before_url_request_callbacks < fuel
      → Settles lib h.before_url_request_callbacks
          (write ∷ writes)
          (verdict lib (new_web_socket lib h request process frame context id))
      → lib.spec lib.empty_url ≡ ""
      → let s = new_web_socket lib h request process frame context id in
        let rv = (answers lib h.before_url_request_callbacks (write ∷ writes) (verdict lib s)).0 in
        (waiting ended : WebSocketProxy lib) × (live lib headers fuel url additional auth trusted s
            []
          ≡ done waiting)
        × (waiting.messages ≡ [])
        × (waiting.disconnects ≡ 0)
        × ((listeners_answered lib fuel (write ∷ writes) waiting >>= λ s'.
              run lib headers fuel s' (run_task ∷ []))
            ≡ done ended)
        × (ended.messages ≡ (
            if is_ok rv
            then run_factory request.url
                (if trusted then [] else headers (set_headers lib additional request.headers))
                trusted
              ∷ []
            else []))
        × (ended.disconnects ≡ (if is_ok rv then 0 else 1))
  unfolding live web_socket_factory_run new_web_socket make_ctx get_upload_data run
  live-answered_later fuel url additional auth true h request process frame context id write writes
        some_listener external keep lt settles e =
      let s₀ : WebSocketProxy lib = record (new_web_socket lib h request process frame context id) {
        proxy_url = url;
        proxy_auth_handler = auth;
        proxy_trusted_header_client = true;
      } in
      let (begun, answered) =
        start-answered fuel s₀ write writes some_listener external keep lt settles refl refl refl
          refl (rw e refl) in
      let ended = returned (Outcome lib headers _ (paused s₀)) _ answered in
      (paused s₀, ended.0, rw begun refl, refl, refl, ended.1, ended.2.0, ended.2.1)
  live-answered_later fuel url additional auth false h request process frame context id write writes
        some_listener external keep lt settles e =
      let s₀ : WebSocketProxy lib = record (new_web_socket lib h request process frame context id) {
        proxy_url = url;
        proxy_auth_handler = auth;
        request = record request { headers = set_headers lib additional request.headers };
      } in
      let (begun, answered) =
        start-answered fuel s₀ write writes some_listener external keep lt settles refl refl refl
          refl (rw e refl) in
      let ended = returned (Outcome lib headers _ (paused s₀)) _ answered in
      (paused s₀, ended.0, rw begun refl, refl, refl, ended.1, ended.2.0, ended.2.1)
