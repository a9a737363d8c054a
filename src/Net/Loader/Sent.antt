-- ===== src/Net/Loader/Sent.antt =====
-- The three ways of ContinueToBeforeSendHeaders in
-- dumb/browser/net/dumb_proxying_url_loader_factory.cc: an error, a redirect, and a loader.
use dumb_browser.Base.{
  ◌≡◌, refl, Bool, true, false, none, some, [], ◌∷◌, ◌++◌, is_ok, value_or, Bool-cases, inl, inr,
  NetError, done, Returns,
}
use dumb_browser.Net.Libraries.{NetLibraries, ComputeRedirectInfo}
use dumb_browser.Net.RequestInfo.{RequestInfo}
use dumb_browser.Net.Handler.{on_before_start_transaction}
use package.dumb_browser.Net.Loader.{
  InProgressRequest, client_redirect, create_loader, on_request_error,
}
use package.dumb_browser.Net.Loader.Redirect.{
  create_redirect_info, internal_redirect_headers, handle_before_request_redirect,
  continue_to_before_redirect,
}
use package.dumb_browser.Net.Loader.Requests.{
  is_not_blocked, continue_to_before_send_headers, start_transaction, continue_to_send_headers,
  send_pending_redirect, continue_to_start_request,
}

module _ (lib : NetLibraries) where
  -- The loader is started, with the referrer that the info holds in place of the request's.
  abbrev pub Started : InProgressRequest lib → RequestInfo lib → InProgressRequest lib → Type 0
  Started s c s' =
      (s'.messages
        ≡ s.messages
          ++ create_loader s.options
              (record s.request { referrer = value_or c.new_referrer s.request.referrer })
            ∷ [])
      × (s'.removed ≡ s.removed)
      × (s'.target_loader ≡ true)

  module _ (compute : ComputeRedirectInfo lib) where
    pub continue_to_before_send_headers-Started :
        (pipe_created : Bool) (s : InProgressRequest lib) (c : RequestInfo lib) (rv : NetError)
        → is_ok rv ≡ true
        → s.ctx ≡ some c
        → lib.is_empty_url s.redirect_url ≡ true
        → is_not_blocked c.blocked_by ≡ true
        → s.target_factory ≡ true
        → s.target_loader ≡ false
        → s.pending_follow_redirect_params ≡ none
        → Returns (Started s c) (continue_to_before_send_headers lib compute pipe_created s rv)
    unfolding continue_to_before_send_headers start_transaction on_before_start_transaction
        continue_to_send_headers send_pending_redirect continue_to_start_request
    continue_to_before_send_headers-Started pipe_created s c rv y here no_url free target fresh
          no_params =
        elim (Bool-cases (lib.is_http_or_https s.request.url)) [
          | inl web ↦ simp (y, here, no_url, free, target, fresh, no_params, web) (refl, refl, refl)
          | inr other ↦
              simp (y, here, no_url, free, target, fresh, no_params, other) (refl, refl, refl)
        ]

    -- The client is sent an internal redirect, and no loader is left.
    abbrev pub Redirected : InProgressRequest lib → InProgressRequest lib → Type 0
    Redirected s s' =
        (s'.messages
          ≡ s.messages
            ++ client_redirect (create_redirect_info lib compute s.request s.redirect_url 307 none)
                (some (record {
                  headers =
                      some
                        (lib.parse_headers (internal_redirect_headers lib compute s.redirect_url));
                  parsed_headers = none;
                }))
              ∷ [])
        × (s'.removed ≡ s.removed)
        × (s'.target_loader ≡ false)

    pub continue_to_before_send_headers-Redirected :
        (pipe_created : Bool) (s : InProgressRequest lib) (c : RequestInfo lib) (rv : NetError)
        → is_ok rv ≡ true
        → s.ctx ≡ some c
        → lib.is_empty_url s.redirect_url ≡ false
        → Returns (Redirected s) (continue_to_before_send_headers lib compute pipe_created s rv)
    unfolding continue_to_before_send_headers handle_before_request_redirect
        continue_to_before_redirect create_redirect_info
    continue_to_before_send_headers-Redirected pipe_created s c rv y here there =
        rw (y, there, here) (refl, refl, refl)

    pub continue_to_before_send_headers-refused :
        (pipe_created : Bool) (s : InProgressRequest lib) (rv : NetError)
        → is_ok rv ≡ false
        → continue_to_before_send_headers lib compute pipe_created s rv
          ≡ done (on_request_error lib s rv)
    unfolding continue_to_before_send_headers
    continue_to_before_send_headers-refused pipe_created s rv n = rw n refl
