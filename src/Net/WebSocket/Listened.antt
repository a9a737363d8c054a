-- ===== src/Net/WebSocket/Listened.antt =====
-- A web socket under listeners that answer at once: `Start` of
-- dumb/browser/net/dumb_proxying_web_socket.cc together with the request handler of
-- dumb/browser/net/dumb_request_handler.cc, and the task that the handler posts.
use dumb_browser.Base.{
  ℕ, ◌+◌, ◌<◌, ◌==◌, ◌≡◌, refl, subst, ◌∙◌, String, Bool, true, false, not, ◌&&◌, Option, none,
  some, List, [], ◌∷◌, ◌++◌, if◌then◌else◌, is_ok, is_pending, is_empty, length, All, Bool-cases,
  inl, inr, NetError, err_io_pending, done, Returns, returned, ◌>>=◌, arith,
}
use dumb_browser.Base.Dict.{insert}
use dumb_browser.Net.Libraries.{NetLibraries, ResourceRequest}
use dumb_browser.Net.RequestInfo.{RequestInfo, make_ctx, get_upload_data, on_before_request}
use dumb_browser.Net.Handler.{Handler, is_internal_scheme}
use dumb_browser.Net.Handler.Loop.{KeepsInfo, first_stop}
use dumb_browser.Net.Handler.Entry.{registered, on_before_url_request_lem}
use dumb_browser.Net.Handler.Completion.{asks_new_url, first_stop-KeepsInfo, settle}
use package.dumb_browser.Net.WebSocket.{
  WebSocketProxy, Completion, run_factory, new_web_socket, after_handler, remake_ctx,
  is_empty_data_uri, apply_effects,
}
use package.dumb_browser.Net.WebSocket.Handshake.{
  HeaderList, set_headers, continue_start, start, start_continuation, web_socket_factory_run,
}
use package.dumb_browser.Net.WebSocket.Step.{run_task, run, live}
use package.dumb_browser.Net.WebSocket.Info.{index-remake_ctx, request_identifier-remake_ctx}
use package.dumb_browser.Net.WebSocket.Tasks.{Outcome, continue_start-Outcome}

module _ (lib : NetLibraries) where
  -- The socket with its identifier, and the info that its listeners are called with.
  abbrev pub numbered : WebSocketProxy lib → WebSocketProxy lib
  numbered s = record s { last_id = s.last_id + 1; request_id = s.last_id + 1 }

  abbrev pub listened_ctx : WebSocketProxy lib → RequestInfo lib
  listened_ctx s = record (remake_ctx lib (numbered s)) {
    has_new_url = true;
    event_type = on_before_request;
  }

  -- What the listeners answer, and the info as they leave it.
  abbrev pub verdict : WebSocketProxy lib → NetError × RequestInfo lib
  verdict s = first_stop lib s.handler.before_url_request_callbacks (listened_ctx s)

  module _ (headers : HeaderList lib) where
    pub start-settle :
        (fuel : ℕ) (s : WebSocketProxy lib)
        → is_empty s.handler.before_url_request_callbacks ≡ false
        → is_internal_scheme lib (remake_ctx lib (numbered s)) ≡ false
        → All (KeepsInfo lib) s.handler.before_url_request_callbacks
        → length s.handler.before_url_request_callbacks < fuel
        → start lib headers fuel s
          ≡ continue_start lib headers
              (after_handler lib (numbered s) (
                settle lib
                  (registered lib s.handler
                    (remake_ctx lib (numbered s))
                    (start_continuation lib headers s))
                  (start_continuation lib headers s)
                  (verdict s)))
              err_io_pending
    unfolding start
    start-settle fuel s some_listener external keep lt =
        rw
          (
            on_before_url_request_lem lib fuel s.handler (remake_ctx lib (numbered s))
                (start_continuation lib headers s) keep (index-remake_ctx lib (numbered s)) lt,
            some_listener,
            external,
          )
          refl

    -- Whether listeners that end with `rv` let the socket go on.
    abbrev pub lets_pass : NetError × RequestInfo lib → Bool
    lets_pass (rv, ctx) =
        is_ok rv
        && not (asks_new_url lib ctx && is_empty_data_uri lib (lib.parse_url ctx.new_url_spec))

    settled-Outcome :
        (fuel : ℕ) (s : WebSocketProxy lib) (h : Handler lib Completion) (rv : NetError)
        (ctx : RequestInfo lib)
        → is_pending rv ≡ false
        → ctx.request_identifier ≡ s.request_id
        → s.tasks ≡ []
        → s.disconnects ≡ 0
        → s.factory ≡ true
        → s.on_before_send_headers_callback ≡ false
        → is_empty_data_uri lib s.redirect_url ≡ false
        → Returns (Outcome lib headers (lets_pass (rv, ctx)) s) (
            continue_start lib headers
              (after_handler lib s (settle lib h (start_continuation lib headers s) (rv, ctx)))
              err_io_pending
            >>= λ s'. run lib headers fuel s' (run_task ∷ []))
    unfolding apply_effects
    settled-Outcome fuel s h rv ctx np id ts here fc cb plain =
        let landed : lib.Url → WebSocketProxy lib = λ url. record s {
          ctx = some ctx;
          handler = record h { callbacks = insert ctx.request_identifier none h.callbacks };
          redirect_url = url;
          tasks = s.tasks ++ (start_continuation lib headers s, rv) ∷ [];
        } in
        let ended : (url : lib.Url)
            → Returns (Outcome lib headers (is_ok rv && not (is_empty_data_uri lib url)) s) (
                continue_start lib headers (landed url) err_io_pending >>= λ s'.
                run lib headers fuel s' (run_task ∷ [])) =
          λ url. continue_start-Outcome lib headers fuel (landed url) rv (rw ts refl) here fc cb in
        let life =
          continue_start lib headers
            (after_handler lib s (settle lib h (start_continuation lib headers s) (rv, ctx)))
            err_io_pending
          >>= λ s'. run lib headers fuel s' (run_task ∷ []) in
        let own : (ctx.request_identifier == s.request_id) ≡ true = ground (arith, id) in
        elim (Bool-cases (is_ok rv && asks_new_url lib ctx)) [
          | inl a ↦
              let asked : (is_ok rv && not (is_empty_data_uri lib (lib.parse_url ctx.new_url_spec)))
                  ≡ lets_pass (rv, ctx) =
                ground (arith, a) in
              subst (λ b. Returns (Outcome lib headers b s) life) asked
                (rw (np, a, own) (ended (lib.parse_url ctx.new_url_spec)))
          | inr a ↦
              let kept : (is_ok rv && not (is_empty_data_uri lib s.redirect_url))
                  ≡ lets_pass (rv, ctx) =
                ground (arith, a, plain) in
              subst (λ b. Returns (Outcome lib headers b s) life) kept
                (rw (np, a) (ended s.redirect_url))
        ]

    start-Outcome :
        (fuel : ℕ) (s : WebSocketProxy lib)
        → is_empty s.handler.before_url_request_callbacks ≡ false
        → is_internal_scheme lib (remake_ctx lib (numbered s)) ≡ false
        → All (KeepsInfo lib) s.handler.before_url_request_callbacks
        → length s.handler.before_url_request_callbacks < fuel
        → is_pending (verdict s).0 ≡ false
        → s.tasks ≡ []
        → s.disconnects ≡ 0
        → s.factory ≡ true
        → s.on_before_send_headers_callback ≡ false
        → is_empty_data_uri lib s.redirect_url ≡ false
        → Returns
            (Outcome lib headers (lets_pass (verdict s)) (numbered s))
            (start lib headers fuel s >>= λ s'. run lib headers fuel s' (run_task ∷ []))
    start-Outcome fuel s some_listener external keep lt np ts here fc cb plain =
        let end = verdict s in
        rw (start-settle fuel s some_listener external keep lt) (
          settled-Outcome fuel (numbered s)
            (registered lib s.handler (remake_ctx lib (numbered s))
              (start_continuation lib headers s))
            end.0 end.1 np
            ((first_stop-KeepsInfo lib s.handler.before_url_request_callbacks (listened_ctx s)
                keep).0
              ∙ request_identifier-remake_ctx lib (numbered s))
            ts here fc cb plain)

    -- Let listeners that answer at once and leave the handler's bookkeeping alone stand before a
    -- new web socket with a URL of no internal scheme, on enough fuel for all of them, with an
    -- empty text of the empty URL; let the factory run and then the task that the handler posted.
    -- If the listeners all let the socket pass, the factory is run once, with the socket's own URL,
    -- even where they asked for another one, and the proxy lives on; if one of them answers an
    -- error, or if they ask for the empty data URI, nothing at all is sent, and the proxy is
    -- deleted once.
    pub live-listened :
        (fuel : ℕ) (url : lib.Url) (additional : List (String × String)) (auth trusted : Bool)
        (h : Handler lib Completion) (request : ResourceRequest lib) (process frame : ℕ)
        (context : Option ℕ) (id : ℕ)
        → is_empty h.before_url_request_callbacks ≡ false
        → is_internal_scheme lib
            (remake_ctx lib (numbered (new_web_socket lib h request process frame context id)))
          ≡ false
        → All (KeepsInfo lib) h.before_url_request_callbacks
        → length h.before_url_request_callbacks < fuel
        → is_pending (verdict (new_web_socket lib h request process frame context id)).0 ≡ false
        → lib.spec lib.empty_url ≡ ""
        → let s = new_web_socket lib h request process frame context id in
          (s' : WebSocketProxy lib) × (live lib headers fuel url additional auth trusted s
              (run_task ∷ [])
            ≡ done s')
          × (s'.messages ≡ (
              if lets_pass (verdict s)
              then run_factory request.url
                  (if trusted then [] else headers (set_headers lib additional request.headers))
                  trusted
                ∷ []
              else []))
          × (s'.disconnects ≡ (if lets_pass (verdict s) then 0 else 1))
    unfolding live web_socket_factory_run new_web_socket make_ctx get_upload_data
    live-listened fuel url additional auth true h request process frame context id some_listener
          external keep lt np e =
        let s₀ : WebSocketProxy lib =
          record (new_web_socket lib h request process frame context id) {
            proxy_url = url;
            proxy_auth_handler = auth;
            proxy_trusted_header_client = true;
          } in
        let ended = returned (Outcome lib headers (lets_pass (verdict s₀)) (numbered s₀)) _ (
          start-Outcome fuel s₀ some_listener external keep lt np refl refl refl refl
            (rw e refl)) in
        (ended.0, ended.1, ended.2.0, ended.2.1)
    live-listened fuel url additional auth false h request process frame context id some_listener
          external keep lt np e =
        let s₀ : WebSocketProxy lib =
          record (new_web_socket lib h request process frame context id) {
            proxy_url = url;
            proxy_auth_handler = auth;
            request = record request { headers = set_headers lib additional request.headers };
          } in
        let ended = returned (Outcome lib headers (lets_pass (verdict s₀)) (numbered s₀)) _ (
          start-Outcome fuel s₀ some_listener external keep lt np refl refl refl refl
            (rw e refl)) in
        (ended.0, ended.1, ended.2.0, ended.2.1)
