-- ===== src/Net/WebSocket/Landed.antt =====
-- How `Start` of dumb/browser/net/dumb_proxying_web_socket.cc leaves a socket under listeners: it
-- waits for them or for the task that follows them, or it is refused.
use dumb_browser.Base.{
  ℕ, ◌<◌, ◌==◌, ◌≡◌, refl, sym, subst, true, false, ◌&&◌, some, List, [], ◌∷◌, ◌++◌, is_empty,
  is_ok, is_pending, length, All, Bool-cases, ◌⊎◌, inl, inr, NetError, err_io_pending, Returns,
}
use dumb_browser.Net.Libraries.{NetLibraries}
use dumb_browser.Net.RequestInfo.{RequestInfo}
use dumb_browser.Net.Handler.{Handler, is_internal_scheme}
use dumb_browser.Net.Handler.Loop.{KeepsInfo}
use dumb_browser.Net.Handler.Completion.{asks_new_url, settle}
use dumb_browser.Net.Handler.Entry.{registered}
use package.dumb_browser.Net.WebSocket.{
  WebSocketProxy, Completion, after_handler, remake_ctx, is_empty_data_uri, apply_effects,
}
use package.dumb_browser.Net.WebSocket.Handshake.{HeaderList, start, start_continuation}
use package.dumb_browser.Net.WebSocket.Tasks.{continue_start-pending}
use package.dumb_browser.Net.WebSocket.Listened.{numbered, verdict, start-settle}
use package.dumb_browser.Net.WebSocket.Queued.{Queued, Anywhere, on_error-Refused}

module _ (lib : NetLibraries) (headers : HeaderList lib) where
  -- What the listeners' verdict makes of a socket that starts.
  landed-Queued :
      (s : WebSocketProxy lib) (h : Handler lib Completion) (v : NetError × RequestInfo lib)
      → is_empty h.headers_received_callbacks ≡ true
      → s.tasks ≡ []
      → ((c : RequestInfo lib) → Queued lib headers (record s { ctx = some c }))
      → let s' = after_handler lib s (settle lib h (start_continuation lib headers s) v) in
        (s'.request.url ≡ s.request.url) × Queued lib headers s'
  unfolding apply_effects
  landed-Queued s h (rv, end) qh ts fresh =
      let q = fresh end in
      let at : (g : Handler lib Completion)
          → (url : lib.Url) → (tasks : List (Completion × NetError))
          → is_empty g.headers_received_callbacks ≡ true
          → (tasks ≡ []) ⊎ ((r : NetError) × (tasks ≡ (start_continuation lib headers s, r) ∷ []))
          → Queued lib headers
              (record s { ctx = some end; handler = g; redirect_url = url; tasks = tasks }) =
        λ g url tasks quiet aw. record {
          awaits = aw;
          has_ctx = refl;
          quiet_headers = quiet;
          plain = q.plain;
          unstarted = q.unstarted;
          forwards = q.forwards;
          unbound_handshake = q.unbound_handshake;
          no_auth_receiver = q.no_auth_receiver;
          unbound_headers = q.unbound_headers;
          has_auth = q.has_auth;
          unasked = q.unasked;
          none_sent = q.none_sent;
          none_received = q.none_received;
          not_done = q.not_done;
          here = q.here;
          nothing = q.nothing;
        } in
      let task : (s.tasks ++ (start_continuation lib headers s, rv) ∷ [])
          ≡ (start_continuation lib headers s, rv) ∷ [] =
        rw ts refl in
      elim (Bool-cases (is_pending rv)) [
        | inl p ↦ simp p (refl, at h s.redirect_url s.tasks qh (inl ts))
        | inr np ↦ elim (Bool-cases (is_ok rv && asks_new_url lib end)) [
          | inl a ↦ elim (Bool-cases (end.request_identifier == s.request_id)) [
            | inl mine ↦ simp (np, a, mine) (refl, at _ _ _ qh (inr (rv, task)))
            | inr other ↦ simp (np, a, other) (refl, at _ _ _ qh (inr (rv, task)))
          ]
          | inr a ↦ simp (np, a) (refl, at _ _ _ qh (inr (rv, task)))
        ]
      ]

  pub start-Anywhere :
      (fuel : ℕ) (s : WebSocketProxy lib)
      → is_empty s.handler.before_url_request_callbacks ≡ false
      → is_internal_scheme lib (remake_ctx lib (numbered lib s)) ≡ false
      → All (KeepsInfo lib) s.handler.before_url_request_callbacks
      → length s.handler.before_url_request_callbacks < fuel
      → s.tasks ≡ []
      → ((c : RequestInfo lib) → Queued lib headers (record (numbered lib s) { ctx = some c }))
      → Returns (Anywhere lib headers s.request.url) (start lib headers fuel s)
  start-Anywhere fuel s some_listener external keep lt ts fresh =
      let k = start_continuation lib headers s in
      let h = registered lib s.handler (remake_ctx lib (numbered lib s)) k in
      let landed = after_handler lib (numbered lib s) (settle lib h k (verdict lib s)) in
      let (own, q) =
        landed-Queued (numbered lib s) h (verdict lib s) (fresh (verdict lib s).1).quiet_headers ts
          fresh in
      rw (start-settle lib headers fuel s some_listener external keep lt) (
        subst (Returns (Anywhere lib headers s.request.url))
          (sym (continue_start-pending lib headers landed))
          (elim (Bool-cases (is_empty_data_uri lib landed.redirect_url)) [
            | inl e ↦
                simp e
                  (inr (inr (on_error-Refused lib headers landed err_io_pending q.here q.nothing)))
            | inr e ↦ simp e (inl (own, q))
          ]))
