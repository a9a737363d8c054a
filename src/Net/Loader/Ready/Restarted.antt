-- ===== src/Net/Loader/Ready/Restarted.antt =====
-- What a request needs to go on, through RestartInternal and FollowRedirect of
-- dumb/browser/net/dumb_proxying_url_loader_factory.cc.
use dumb_browser.Base.{
  ◌<◌, ◌++◌, ◌∷◌, [], All, length, All-append, ◌==◌, ◌&&◌, is_pending, ℕ, ◌≡◌, refl, is_some, Bool,
  true, false, some, is_ok, is_empty, Bool-cases, inl, inr, NetError, net_ok, Returns,
}
use dumb_browser.Net.Libraries.{NetLibraries, ComputeRedirectInfo}
use dumb_browser.Net.RequestInfo.{RequestInfo}
use dumb_browser.Net.Handler.Loop.{KeepsInfo}
use dumb_browser.Net.Handler.Completion.{asks_new_url}
use package.dumb_browser.Net.Loader.Refused.{verdict}
use package.dumb_browser.Net.Loader.Answers.{landed, restart_internal-landed}
use dumb_browser.Net.Handler.{is_internal_scheme, on_before_url_request}
use package.dumb_browser.Net.Loader.{
  InProgressRequest, before_send_headers, FollowRedirectParams, remake_ctx, apply_effects,
}
use package.dumb_browser.Net.Loader.Requests.{
  after_before_url_request, restart_internal, follow_redirect,
}
use package.dumb_browser.Net.Loader.Ready.{Ready, IsStart, continue_to_before_send_headers-Ready}

module _ (lib : NetLibraries) (fuel : ℕ) (compute : ComputeRedirectInfo lib) where
  -- The parts of `Ready` that stay when listeners are run.
  parts-Ready :
      (s : InProgressRequest lib)
      → is_some s.ctx ≡ true
      → All (KeepsInfo lib) s.handler.before_url_request_callbacks
      → length s.handler.before_url_request_callbacks < fuel
      → is_empty s.handler.headers_received_callbacks ≡ true
      → All IsStart s.tasks
      → Ready lib fuel s
  parts-Ready s info keep lt qh ts = record {
    has_ctx = info;
    keep = keep;
    enough = lt;
    quiet_headers = qh;
    starts = ts;
  }

  settle-Ready :
      (s : InProgressRequest lib) (v : NetError × RequestInfo lib)
      → All (KeepsInfo lib) s.handler.before_url_request_callbacks
      → length s.handler.before_url_request_callbacks < fuel
      → is_empty s.handler.headers_received_callbacks ≡ true
      → All IsStart s.tasks
      → Ready lib fuel (landed lib compute s v)
  unfolding apply_effects
  settle-Ready s (rv, end) keep lt qh ts =
      let more : All IsStart (s.tasks ++ (before_send_headers, rv) ∷ []) =
        All-append IsStart s.tasks ((before_send_headers, rv) ∷ []) ts (refl, tt) in
      elim (Bool-cases (is_pending rv)) [
        | inl p ↦ rw p (parts-Ready _ refl keep lt qh ts)
        | inr np ↦ elim (Bool-cases (is_ok rv && asks_new_url lib end)) [
          | inl a ↦ elim (Bool-cases (end.request_identifier == s.request_id)) [
            | inl own ↦ rw (np, a, own) (parts-Ready _ refl keep lt qh more)
            | inr other ↦ rw (np, a, other) (parts-Ready _ refl keep lt qh more)
          ]
          | inr a ↦ rw (np, a) (parts-Ready _ refl keep lt qh more)
        ]
      ]

  pub restart_internal-Ready :
      (pipe_created : Bool) (s : InProgressRequest lib)
      → All (KeepsInfo lib) s.handler.before_url_request_callbacks
      → length s.handler.before_url_request_callbacks < fuel
      → is_empty s.handler.headers_received_callbacks ≡ true
      → All IsStart s.tasks
      → Returns (Ready lib fuel) (restart_internal lib compute fuel pipe_created s)
  unfolding restart_internal on_before_url_request after_before_url_request apply_effects
  restart_internal-Ready pipe_created s keep lt qh ts =
      let s₀ : InProgressRequest lib = record s {
        request_completed = false;
        redirect_url = lib.empty_url;
      } in
      let at_once =
        continue_to_before_send_headers-Ready lib fuel compute pipe_created
          (record s₀ { ctx = some (remake_ctx lib s₀) }) net_ok
          (parts-Ready _ refl keep lt qh ts) in
      elim (Bool-cases (is_empty s.handler.before_url_request_callbacks)) [
        | inl none_there ↦ rw none_there at_once
        | inr some_listener ↦ elim (Bool-cases (is_internal_scheme lib (remake_ctx lib s))) [
          | inl internal ↦ rw (some_listener, internal) at_once
          | inr external ↦
              rw
                (restart_internal-landed lib compute fuel pipe_created s some_listener external keep
                  lt)
                (settle-Ready s (verdict lib compute s) keep lt qh ts)
        ]
      ]

  pub follow_redirect-Ready :
      (pipe_created : Bool) (params : FollowRedirectParams lib) (s : InProgressRequest lib)
      → Ready lib fuel s
      → Returns (Ready lib fuel) (follow_redirect lib compute fuel pipe_created params s)
  unfolding follow_redirect
  follow_redirect-Ready pipe_created params s r =
      restart_internal-Ready pipe_created _ r.keep r.enough r.quiet_headers r.starts
