-- ===== src/Net/Loader/Refused.antt =====
-- A request that listeners refuse: RestartInternal to OnRequestError of
-- dumb/browser/net/dumb_proxying_url_loader_factory.cc together with the request handler of
-- dumb/browser/net/dumb_request_handler.cc, and the task that the handler posts.
use dumb_browser.Base.{
  ℕ, ◌<◌, ◌≡◌, refl, ap, ◌∙◌, Bool, true, false, Option, none, some, List, [], ◌∷◌, ◌++◌, ◌>>=◌,
  is_ok, is_pending, is_empty, length, All, NetError, done,
}
use dumb_browser.Net.Libraries.{NetLibraries, ResourceRequest, ComputeRedirectInfo}
use dumb_browser.Net.RequestInfo.{RequestInfo, on_before_request}
use dumb_browser.Net.RequestInfo.Made.{make_ctx_lem}
use dumb_browser.Base.Dict.{insert}
use dumb_browser.Net.Handler.{Handler, post_task, is_internal_scheme}
use dumb_browser.Net.Handler.Completion.{settle}
use dumb_browser.Net.Handler.Loop.{KeepsInfo, first_stop}
use dumb_browser.Net.Handler.Entry.{registered, on_before_url_request_lem}
use package.dumb_browser.Net.Loader.{
  InProgressRequest, Continuation, before_send_headers, client_complete, pause_if_bound, remake_ctx,
  apply_effects, on_request_error, remove_request,
}
use package.dumb_browser.Net.Loader.Requests.{
  restart_internal, after_before_url_request, continue_to_before_send_headers,
}
use package.dumb_browser.Net.Loader.Responses.{run_continuation}
use package.dumb_browser.Net.Loader.Step.{
  Event, run_task, run_first_task, handle, step, run, live, new_in_progress_request,
}

module _ (lib : NetLibraries) (compute : ComputeRedirectInfo lib) where
  -- What the listeners answer to a request that is new or starts again.
  abbrev pub verdict : InProgressRequest lib → NetError × RequestInfo lib
  verdict s =
      first_stop lib s.handler.before_url_request_callbacks
        (record (remake_ctx lib s) { has_new_url = true; event_type = on_before_request })

  removed-on_request_error :
      (s : InProgressRequest lib) (rv : NetError) → (on_request_error lib s rv).removed ≡ true
  unfolding on_request_error remove_request
  removed-on_request_error s rv = refl

  run-removed :
      (fuel : ℕ) (pipe_created : Bool) (s : InProgressRequest lib) (es : List (Event lib))
      → s.removed ≡ true
      → run lib compute fuel pipe_created s es ≡ done s
  unfolding run step
  run-removed fuel pipe_created s [] gone = refl
  run-removed fuel pipe_created s (e ∷ es) gone =
      simp gone (run-removed fuel pipe_created s es gone)

  -- The request that waits for the task that was posted for it.
  abbrev waiting : InProgressRequest lib → InProgressRequest lib
  waiting s =
      let (rv, ctx) = verdict s in
      let h = registered lib s.handler (remake_ctx lib s) before_send_headers in
      record s {
        request_completed = false;
        redirect_url = lib.empty_url;
        ctx = some ctx;
        handler = record h { callbacks = insert ctx.request_identifier none h.callbacks };
        tasks = s.tasks ++ (before_send_headers, rv) ∷ [];
        proxied_client_receiver = pause_if_bound lib s.proxied_client_receiver;
      }

  settle-refused :
      (h : Handler lib (Continuation lib)) (k : Continuation lib) (rv : NetError)
      (ctx : RequestInfo lib)
      → is_pending rv ≡ false
      → is_ok rv ≡ false
      → settle lib h k (rv, ctx) ≡ record {
        handler = record h { callbacks = insert ctx.request_identifier none h.callbacks };
        ctx = ctx;
        effects = post_task k rv ∷ [];
      }
  settle-refused h k rv ctx np n = rw (np, n) refl

  restart_internal-refused :
      (fuel : ℕ) (pipe_created : Bool) (s : InProgressRequest lib)
      → is_empty s.handler.before_url_request_callbacks ≡ false
      → is_internal_scheme lib (remake_ctx lib s) ≡ false
      → All (KeepsInfo lib) s.handler.before_url_request_callbacks
      → length s.handler.before_url_request_callbacks < fuel
      → is_pending (verdict s).0 ≡ false
      → is_ok (verdict s).0 ≡ false
      → restart_internal lib compute fuel pipe_created s ≡ done (waiting s)
  unfolding restart_internal after_before_url_request apply_effects
  restart_internal-refused fuel pipe_created s some_listener external keep lt np n =
      let made =
        make_ctx_lem lib s.request s.render_process_id s.frame_tree_node_id s.request_id
          s.browser_context s.ctx in
      rw
        (
          on_before_url_request_lem lib fuel s.handler (remake_ctx lib s) before_send_headers keep
              made.3.0 lt,
          some_listener,
          external,
          settle-refused (registered lib s.handler (remake_ctx lib s) before_send_headers)
              before_send_headers (verdict s).0 (verdict s).1 np n,
        )
        refl

  run-refused :
      (fuel : ℕ) (pipe_created : Bool) (s : InProgressRequest lib) (rv : NetError)
      (es : List (Event lib))
      → s.removed ≡ false
      → s.tasks ≡ (before_send_headers, rv) ∷ []
      → is_ok rv ≡ false
      → run lib compute fuel pipe_created s (run_task ∷ es)
        ≡ done (on_request_error lib (record s { tasks = [] }) rv)
  unfolding run step handle run_first_task run_continuation continue_to_before_send_headers
  run-refused fuel pipe_created s rv es here ts n =
      simp (here, ts, n) (run-removed fuel pipe_created _ es (removed-on_request_error _ rv))

  -- Let listeners that leave the handler's bookkeeping alone stand before a new request with a URL
  -- of no internal scheme, on enough fuel for all of them; if they answer an error at once, then
  -- from the task that the handler posts on, whatever else happens, no loader is ever started: all
  -- that is sent is that error, once, to the client, and the request is removed.
  pub live-refused :
      (fuel : ℕ) (pipe_created : Bool) (h : Handler lib (Continuation lib)) (target_factory : Bool)
      (request : ResourceRequest lib) (id process frame options : ℕ) (context : Option ℕ)
      (es : List (Event lib))
      → is_empty h.before_url_request_callbacks ≡ false
      → is_internal_scheme lib (
          remake_ctx lib
            (new_in_progress_request lib h target_factory request id process frame options context))
        ≡ false
      → All (KeepsInfo lib) h.before_url_request_callbacks
      → length h.before_url_request_callbacks < fuel
      → is_pending
          (verdict (
            new_in_progress_request lib h target_factory request id process frame options
              context)).0
        ≡ false
      → is_ok
          (verdict (
            new_in_progress_request lib h target_factory request id process frame options
              context)).0
        ≡ false
      → let s =
          new_in_progress_request lib h target_factory request id process frame options context in
        (s' : InProgressRequest lib) × (live lib compute fuel pipe_created s (run_task ∷ es)
          ≡ done s')
        × (s'.messages ≡ client_complete (verdict s).0 ∷ [])
        × (s'.removed ≡ true)
  unfolding live new_in_progress_request on_request_error remove_request
  live-refused fuel pipe_created h target_factory request id process frame options context es
        some_listener external keep lt np n =
      let s =
        new_in_progress_request lib h target_factory request id process frame options context in
      (
        on_request_error lib (record (waiting s) { tasks = [] }) (verdict s).0,
        ap (λ m. m >>= λ s'. run lib compute fuel pipe_created s' (run_task ∷ es))
              (restart_internal-refused fuel pipe_created s some_listener external keep lt np n)
            ∙ run-refused fuel pipe_created (waiting s) (verdict s).0 es refl refl n,
        refl,
        refl,
      )
