-- ===== src/NetworkDelegate/Headers.antt =====
-- Referrers, response headers, proxy errors and reports.
use dumb_browser.Base.{
  ◌≡◌, refl, ◌↔◌, ◌⊎◌, String, Bool, true, false, Option, none, some, is_some, NetError,
  err_io_pending, err_proxy_auth_unsupported, err_proxy_connection_failed,
  err_tunnel_connection_failed, arith, Bool-cases, Option-cases, inl, inr,
}
use package.dumb_browser.NetworkDelegate.Libraries.{
  DelegateLibraries, UrlRequest, UrlLoader, Delegate,
}
use package.dumb_browser.NetworkDelegate.{
  maybe_truncate_referrer, handle_clear_site_data_header, on_response_started, on_completed,
}

module _ (lib : DelegateLibraries) where
  open lib.urls use {Url, spec}

  -- The origin of a referrer.
  abbrev pub referrer_origin : UrlRequest lib → lib.Origin
  referrer_origin r = lib.create_origin (lib.parse_url r.referrer)

  -- With referrers switched off the referrer is emptied and the policy forbids one; otherwise it is
  -- left alone only if the cap is off or it stays within its origin, and else is the bare origin.
  -- The URL, the loader and the socket are not changed.
  maybe_truncate_referrer_lem :
      (d : Delegate lib) (r : UrlRequest lib) (u : Url)
      → let t = maybe_truncate_referrer lib d r u in
        (((d.enable_referrers ≡ false) × (t.referrer ≡ "") × (t.referrer_policy ≡ lib.no_referrer))
          ⊎ ((d.enable_referrers ≡ true)
              × (t.referrer ≡ r.referrer)
              × ((lib.cap_referrer_to_origin ≡ false)
                  ⊎ (lib.is_same_origin (lib.create_origin u) (referrer_origin r) ≡ true)))
          ⊎ ((d.enable_referrers ≡ true)
              × (t.referrer ≡ spec (lib.origin_url (referrer_origin r)))))
        × ((t.url ≡ r.url) × (t.loader ≡ r.loader) × (t.web_socket ≡ r.web_socket))
  unfolding maybe_truncate_referrer
  maybe_truncate_referrer_lem d r u = (
    elim (Bool-cases d.enable_referrers) [
      | inr off ↦ inl (ground arith)
      | inl on ↦ elim (Bool-cases lib.cap_referrer_to_origin) [
        | inr uncapped ↦ inr (inl (ground arith))
        | inl capped ↦
            elim (Bool-cases (lib.is_same_origin (lib.create_origin u) (referrer_origin r))) [
              | inl same ↦ inr (inl (ground arith))
              | inr other ↦ inr (inr (ground arith))
            ]
      ]
    ],
    ground arith,
  )

  -- The header's handler waits exactly when it has told an observer, which is when the response has
  -- the header, and the request has a loader with an observer; the observer is told that header's
  -- value.
  pub handle_clear_site_data_header_iff :
      (r : UrlRequest lib) (original : Option lib.ResponseHeaders) (value : String)
      → ((handle_clear_site_data_header lib r original ≡ (err_io_pending, some value)) ↔ (
          (headers : lib.ResponseHeaders) × (loader : UrlLoader lib) × (original ≡ some headers)
          × (r.loader ≡ some loader)
          × (loader.has_observer ≡ true)
          × (lib.normalized_header headers "Clear-Site-Data" ≡ some value)))
        × (((handle_clear_site_data_header lib r original).0 ≡ err_io_pending)
            ↔ (is_some (handle_clear_site_data_header lib r original).1 ≡ true))
  unfolding handle_clear_site_data_header
  handle_clear_site_data_header_iff r none value =
      ((λ h. cc, λ (headers, loader, e, _, _, _). cc), (λ h. cc, λ h. cc))
  handle_clear_site_data_header_iff r (some headers) value = elim (Option-cases r.loader) [
    | inl e ↦ (
      (λ h. ground arith, λ (_, loader, _, l, _, _). ground arith),
      (λ h. ground arith, λ h. ground arith),
    )
    | inr (loader, e) ↦ (
      (
        λ h. (headers, loader, refl, e, ground arith, ground arith),
        λ (g, l, eg, el, o, v). ground arith,
      ),
      (λ h. ground arith, λ h. ground arith),
    )
  ]

  -- A proxy error reaches the client of a request that started or that completed alike, exactly if
  -- there is a client and the error is one of the three that hint at the proxy settings.
  pub on_completed_iff :
      (d : Delegate lib) (started : Bool) (e told : NetError)
      → (on_completed lib d started e ≡ on_response_started lib d e)
        × ((on_completed lib d started e ≡ some told) ↔ (
            (d.has_proxy_error_client ≡ true)
            × (told ≡ e)
            × ((e ≡ err_proxy_auth_unsupported)
                ⊎ (e ≡ err_proxy_connection_failed)
                ⊎ (e ≡ err_tunnel_connection_failed))))
  unfolding on_completed on_response_started
  on_completed_iff d started e told = (refl, (λ h. ground arith, λ h. ground arith))
