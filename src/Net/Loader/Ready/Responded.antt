-- ===== src/Net/Loader/Ready/Responded.antt =====
-- What a request needs to go on, through ContinueToResponseStarted of
-- dumb/browser/net/dumb_proxying_url_loader_factory.cc.
use dumb_browser.Base.{
  ℕ, ◌≡◌, refl, String, some, is_ok, Bool-cases, Option-cases, inl, inr, NetError, net_ok, Returns,
  arith,
}
use dumb_browser.Net.Libraries.{NetLibraries, ComputeRedirectInfo}
use package.dumb_browser.Net.Loader.{InProgressRequest, bound, ResponseHead}
use package.dumb_browser.Net.Loader.Responses.{
  overridden_response, deliver_response, redirect_by_override, start_or_redirect,
  continue_to_response_started, override_redirect,
}
use package.dumb_browser.Net.Loader.Ready.{
  Ready, like, on_request_error-Ready, continue_to_before_redirect-Ready,
}

module _ (lib : NetLibraries) (fuel : ℕ) (compute : ComputeRedirectInfo lib) where
  redirect_by_override-Ready :
      (s : InProgressRequest lib) (h : lib.ResponseHeaders) (location : String)
      → Ready lib fuel s
      → Returns (Ready lib fuel) (redirect_by_override lib compute s h location)
  unfolding redirect_by_override
  redirect_by_override-Ready s h location r = elim (Option-cases s.ctx) [
    | inl n ↦ absurd (ground (arith, r.has_ctx))
    | inr (c, n) ↦ rw n (
        continue_to_before_redirect-Ready lib fuel compute _ _ net_ok
          (like lib fuel s _ refl refl refl r))
  ]

  deliver_response-Ready :
      (s : InProgressRequest lib) (head : ResponseHead lib)
      → s.current_response ≡ some head
      → s.proxied_client_receiver ≡ bound
      → Ready lib fuel s
      → Returns (Ready lib fuel) (deliver_response lib s)
  unfolding deliver_response
  deliver_response-Ready s head e b r = rw (b, e) (like lib fuel s _ r.has_ctx refl refl r)

  start_or_redirect-Ready :
      (s : InProgressRequest lib) (head : ResponseHead lib)
      → s.current_response ≡ some head
      → s.proxied_client_receiver ≡ bound
      → Ready lib fuel s
      → Returns (Ready lib fuel) (start_or_redirect lib compute s)
  unfolding start_or_redirect
  start_or_redirect-Ready s head c b r =
      elim (Option-cases (override_redirect lib s.override_headers)) [
        | inl e ↦ rw (e, start_or_redirect) (deliver_response-Ready s head c b r)
        | inr (h, e) ↦ rw (e, start_or_redirect) (redirect_by_override-Ready s h.0 h.1 r)
      ]

  pub continue_to_response_started-Ready :
      (s : InProgressRequest lib) (head : ResponseHead lib) (rv : NetError)
      → s.current_response ≡ some head
      → s.proxied_client_receiver ≡ bound
      → Ready lib fuel s
      → Returns (Ready lib fuel) (continue_to_response_started lib compute s rv)
  unfolding continue_to_response_started overridden_response
  continue_to_response_started-Ready s head rv c b r = elim (Bool-cases (is_ok rv)) [
    | inr e ↦ ground (arith, on_request_error-Ready lib fuel s rv r)
    | inl e ↦ elim (Option-cases s.override_headers) [
      | inl n ↦
          rw (e, n, c)
            (start_or_redirect-Ready _ head refl b (like lib fuel s _ r.has_ctx refl refl r))
      | inr (h, n) ↦
          rw (e, n, c)
            (start_or_redirect-Ready _ _ refl b (like lib fuel s _ r.has_ctx refl refl r))
    ]
  ]
