-- ===== src/Net/WebSocket/Answers.antt =====
-- Late answers to a web socket of dumb/browser/net/dumb_proxying_web_socket.cc: the `next_callback`
-- that the request handler gave to a listener is called while the socket waits in `Start`.
use dumb_browser.Base.{
  arith, ℕ, ◌<◌, ◌==◌, ◌≡◌, refl, true, false, ◌&&◌, none, some, List, [], ◌∷◌, ◌++◌, is_ok,
  is_pending, length, All, Bool-cases, inl, inr, NetError, Exec, done, Returns, ◌>>=◌,
}
use dumb_browser.Base.Dict.{insert, lookup-erase_self}
use dumb_browser.Net.Libraries.{NetLibraries}
use dumb_browser.Net.RequestInfo.{RequestInfo}
use dumb_browser.Net.Handler.{run_next_callback, on_url_request_destroyed}
use dumb_browser.Net.Handler.Loop.{KeepsInfo}
use dumb_browser.Net.Handler.Completion.{asks_new_url, settle}
use dumb_browser.Net.Handler.Resumed.{
  Write, KeepsWritten, resumed, answers, Settles, Waits, Waits-resumed, run_next_callback-resumed,
}
use package.dumb_browser.Net.WebSocket.{on_error, WebSocketProxy, after_handler, apply_effects}
use package.dumb_browser.Net.WebSocket.Handshake.{HeaderList, start_continuation}
use package.dumb_browser.Net.WebSocket.Step.{run_task, run}
use package.dumb_browser.Net.WebSocket.Tasks.{Outcome, run-Outcome}

module _ (lib : NetLibraries) where
  -- The listener that a socket waits for writes into the info and calls its `next_callback`.
  unfoldable pub listener_answered : ℕ → Write lib → WebSocketProxy lib → Exec (WebSocketProxy lib)
  listener_answered fuel write s = elim s.ctx [
    | none ↦ done s
    | some ctx ↦
        run_next_callback lib fuel s.handler (write ctx) >>= λ ran. done (after_handler lib s ran)
  ]

  unfoldable pub listeners_answered :
      ℕ → List (Write lib) → WebSocketProxy lib → Exec (WebSocketProxy lib)
  listeners_answered fuel [] s = done s
  listeners_answered fuel (write ∷ writes) s =
      listener_answered fuel write s >>= λ s'. listeners_answered fuel writes s'

  -- A listener that answers after its socket has ended changes nothing but the info that it wrote
  -- into.
  listener_answered-on_error :
      (fuel : ℕ) (s : WebSocketProxy lib) (rv : NetError) (ctx : RequestInfo lib)
      (write : Write lib)
      → s.ctx ≡ some ctx
      → KeepsWritten lib write
      → listener_answered fuel write (on_error lib s rv)
        ≡ done (record (on_error lib s rv) { ctx = some (write ctx) })
  unfolding listener_answered on_error on_url_request_destroyed run_next_callback apply_effects
  listener_answered-on_error fuel s rv ctx write here keeps =
      rw here (
        ground (arith, (keeps ctx).1, lookup-erase_self ctx.request_identifier s.handler.callbacks))

  module _ (headers : HeaderList lib) where
    -- A socket that waits for a listener, with the info that it waits with.
    pub record Waiting (s : WebSocketProxy lib) (ctx : RequestInfo lib) : Type 0 where
      pub waits_with : s.ctx ≡ some ctx
      pub waits : Waits lib s.handler (start_continuation lib headers s) ctx
      pub keep : All (KeepsInfo lib) s.handler.before_url_request_callbacks
      pub no_task : s.tasks ≡ []
      pub alive : s.disconnects ≡ 0
      pub unstarted : s.factory ≡ true
      pub unasked : s.on_before_send_headers_callback ≡ false

    listener_answered-resumed :
        (fuel : ℕ) (s : WebSocketProxy lib) (ctx : RequestInfo lib) (write : Write lib)
        → Waiting s ctx
        → KeepsWritten lib write
        → length s.handler.before_url_request_callbacks < fuel
        → listener_answered fuel write s
          ≡ done (
              after_handler lib s (
                settle lib s.handler
                  (start_continuation lib headers s)
                  (resumed lib s.handler.before_url_request_callbacks write ctx)))
    unfolding listener_answered
    listener_answered-resumed fuel s ctx write w keeps lt =
        rw
          (
            w.waits_with,
            run_next_callback-resumed lib fuel s.handler (start_continuation lib headers s) ctx
                write w.keep keeps w.waits lt,
          )
          refl

    -- An answer that settles the request posts a task, and the task starts the socket or ends it.
    settled-Outcome :
        (fuel : ℕ) (s : WebSocketProxy lib) (ctx : RequestInfo lib) (rv : NetError)
        (end : RequestInfo lib)
        → Waiting s ctx
        → is_pending rv ≡ false
        → Returns (Outcome lib headers (is_ok rv) s) (
            run lib headers fuel
              (after_handler lib s
                (settle lib s.handler (start_continuation lib headers s) (rv, end)))
              (run_task ∷ []))
    unfolding apply_effects
    settled-Outcome fuel s ctx rv end w np =
        let landed : lib.Url → WebSocketProxy lib = λ url. record s {
          ctx = some end;
          handler = record s.handler {
            callbacks = insert end.request_identifier none s.handler.callbacks;
          };
          redirect_url = url;
          tasks = s.tasks ++ (start_continuation lib headers s, rv) ∷ [];
        } in
        let ended : (url : lib.Url)
            → Returns (Outcome lib headers (is_ok rv) s)
                (run lib headers fuel (landed url) (run_task ∷ [])) =
          λ url.
            run-Outcome lib headers fuel (landed url) rv (rw w.no_task refl) w.alive w.unstarted
              w.unasked in
        elim (Bool-cases (is_ok rv && asks_new_url lib end)) [
          | inl a ↦ elim (Bool-cases (end.request_identifier == s.request_id)) [
            | inl own ↦ rw (np, a, own) (ended (lib.parse_url end.new_url_spec))
            | inr other ↦ rw (np, a, other) (ended s.redirect_url)
          ]
          | inr a ↦ rw (np, a) (ended s.redirect_url)
        ]

    -- An answer after which another listener waits changes nothing but the info.
    Waiting-resumed :
        (s : WebSocketProxy lib) (ctx : RequestInfo lib) (write : Write lib)
        → Waiting s ctx
        → KeepsWritten lib write
        → is_pending (resumed lib s.handler.before_url_request_callbacks write ctx).0 ≡ true
        → let end = resumed lib s.handler.before_url_request_callbacks write ctx in
          (after_handler lib s (settle lib s.handler (start_continuation lib headers s) end)
            ≡ record s { ctx = some end.1 })
          × Waiting (record s { ctx = some end.1 }) end.1
    unfolding apply_effects
    Waiting-resumed s ctx write w keeps p = (
      rw p refl,
      record {
        waits_with = refl;
        waits =
            Waits-resumed lib s.handler (start_continuation lib headers s) ctx write w.keep keeps
              w.waits;
        keep = w.keep;
        no_task = w.no_task;
        alive = w.alive;
        unstarted = w.unstarted;
        unasked = w.unasked;
      },
    )

    pub listeners_answered-Outcome :
        (fuel : ℕ) (s : WebSocketProxy lib) (v : NetError × RequestInfo lib) (write : Write lib)
        (writes : List (Write lib))
        → Waiting s v.1
        → Settles lib s.handler.before_url_request_callbacks (write ∷ writes) v
        → length s.handler.before_url_request_callbacks < fuel
        → Returns
            (Outcome lib headers
              (is_ok (answers lib s.handler.before_url_request_callbacks (write ∷ writes) v).0)
              s)
            (listeners_answered fuel (write ∷ writes) s >>= λ s'.
              run lib headers fuel s' (run_task ∷ []))
    unfolding listeners_answered
    listeners_answered-Outcome fuel s v write [] w (_, keeps, np) lt =
        let end = resumed lib s.handler.before_url_request_callbacks write v.1 in
        rw (listener_answered-resumed fuel s v.1 write w keeps lt)
          (settled-Outcome fuel s v.1 end.0 end.1 w np)
    listeners_answered-Outcome fuel s v write (more ∷ writes) w (_, keeps, rest) lt =
        let end = resumed lib s.handler.before_url_request_callbacks write v.1 in
        let (same, w') = Waiting-resumed s v.1 write w keeps rest.0 in
        rw (listener_answered-resumed fuel s v.1 write w keeps lt, same)
          (listeners_answered-Outcome fuel (record s { ctx = some end.1 }) end more writes w' rest
            lt)
