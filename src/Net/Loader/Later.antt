-- ===== src/Net/Loader/Later.antt =====
-- A request under listeners that answer later, in RestartInternal of
-- dumb/browser/net/dumb_proxying_url_loader_factory.cc.
use dumb_browser.Base.{
  if◌then◌else◌, ◌∙◌, ◌++◌, ℕ, ◌<◌, ◌==◌, ◌≡◌, refl, ap, Bool, true, false, ◌&&◌, none, some, List,
  [], ◌∷◌, is_ok, is_pending, is_empty, length, All, Bool-cases, inl, inr, NetError, done, ◌>>=◌,
  arith,
}
use dumb_browser.Net.Libraries.{NetLibraries, ComputeRedirectInfo}
use dumb_browser.Net.RequestInfo.{RequestInfo}
use dumb_browser.Net.RequestInfo.Made.{make_ctx_lem}
use dumb_browser.Net.Handler.{is_internal_scheme}
use dumb_browser.Net.Handler.Loop.{KeepsInfo}
use dumb_browser.Net.Handler.Completion.{asks_new_url, first_stop-KeepsInfo}
use dumb_browser.Base.Dict.{insert}
use dumb_browser.Net.Handler.Resumed.{
  request_identifier-answers, is_pending-answers, Write, answers, Settles,
}
use package.dumb_browser.Net.Loader.{
  InProgressRequest, before_send_headers, pause_if_bound, remake_ctx, apply_effects,
}
use package.dumb_browser.Net.Loader.Requests.{restart_internal}
use package.dumb_browser.Net.Loader.Refused.{verdict}
use package.dumb_browser.Net.Loader.Answers.{
  listeners_answered, landed, restart_internal-landed, listeners_answered-landed, verdict-Waits,
}

module _ (lib : NetLibraries) (compute : ComputeRedirectInfo lib) where
  -- The request that its listeners have settled with `rv`, and with `end` for its info.
  abbrev pub settled : InProgressRequest lib → NetError × RequestInfo lib → InProgressRequest lib
  settled s (rv, end) = record s {
    ctx = some end;
    handler = record s.handler {
      callbacks =
          insert s.request_id none
            (insert s.request_id (some before_send_headers) s.handler.callbacks);
    };
    request_completed = false;
    redirect_url =
        if is_ok rv && asks_new_url lib end then lib.parse_url end.new_url_spec else lib.empty_url;
    proxied_client_receiver = pause_if_bound lib s.proxied_client_receiver;
    tasks = s.tasks ++ (before_send_headers, rv) ∷ [];
  }

  landed-settled :
      (s : InProgressRequest lib) (rv : NetError) (end : RequestInfo lib)
      → is_pending rv ≡ false
      → end.request_identifier ≡ s.request_id
      → (remake_ctx lib s).request_identifier ≡ s.request_id
      → landed lib compute s (rv, end) ≡ settled s (rv, end)
  unfolding apply_effects
  landed-settled s rv end np own made =
      let same : (end.request_identifier == s.request_id) ≡ true = ground (arith, own) in
      elim (Bool-cases (is_ok rv && asks_new_url lib end)) [
        | inl a ↦ rw (np, a, same, own, made) refl
        | inr a ↦ rw (np, a, own, made) refl
      ]

  -- Let listeners that leave the handler's bookkeeping alone stand before a request that starts or
  -- starts again with a URL of no internal scheme, on enough fuel for all of them. Let any number
  -- of them, one after the other, be pending and answer later, writing what they like into the
  -- info except the handler's bookkeeping, until the request is settled. Then it stands where the
  -- last verdict has it, in the same way whether the listeners came to that at once or through
  -- late answers: not completed, with the redirect that they asked for and no other, one more task
  -- with their result, and the loader's pipe paused.
  pub restart_internal-answered_later :
      (fuel : ℕ) (pipe_created : Bool) (s : InProgressRequest lib) (writes : List (Write lib))
      → is_empty s.handler.before_url_request_callbacks ≡ false
      → is_internal_scheme lib (remake_ctx lib s) ≡ false
      → All (KeepsInfo lib) s.handler.before_url_request_callbacks
      → length s.handler.before_url_request_callbacks < fuel
      → Settles lib s.handler.before_url_request_callbacks writes (verdict lib compute s)
      → (restart_internal lib compute fuel pipe_created s >>= λ s'.
          listeners_answered lib fuel writes s')
        ≡ done (
            settled s
              (answers lib s.handler.before_url_request_callbacks writes (verdict lib compute s)))
  restart_internal-answered_later fuel pipe_created s writes some_listener external keep lt
        settles =
      let ls = s.handler.before_url_request_callbacks in
      let v = verdict lib compute s in
      let end = answers lib ls writes v in
      let made =
        (make_ctx_lem lib s.request s.render_process_id s.frame_tree_node_id s.request_id
          s.browser_context s.ctx).0 in
      let own =
        request_identifier-answers lib ls writes v keep settles
        ∙ (first_stop-KeepsInfo lib ls _ keep).0
        ∙ made in
      rw (restart_internal-landed lib compute fuel pipe_created s some_listener external keep lt) (
        listeners_answered-landed lib compute fuel s v writes keep
          (verdict-Waits lib compute s keep) settles lt
        ∙ ap (λ s'. done s')
            (landed-settled s end.0 end.1 (is_pending-answers lib ls writes v settles) own made))
