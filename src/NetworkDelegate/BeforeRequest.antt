-- ===== src/NetworkDelegate/BeforeRequest.antt =====
-- What `OnBeforeURLRequest` does to a request.
use dumb_browser.Base.{◌≡◌, ap, Bool, true, ◌&&◌, Option, some, if◌then◌else◌, ltb, done, arith}
use dumb_browser.PrivacyGuard.Delegate.{truncate_url_parameters, replace_query}
use dumb_browser.PrivacyGuard.Delegate.Outcome.{removed, purified, truncate_url_parameters_lem}
use package.dumb_browser.NetworkDelegate.Libraries.{
  DelegateLibraries, UrlRequest, UrlLoader, Delegate, NetworkService,
}
use package.dumb_browser.NetworkDelegate.{
  BeforeOutcome, maybe_truncate_referrer, purify_request, effective, on_before_url_request,
}

module _ (lib : DelegateLibraries) where
  -- The purifier changes something: it is enabled, and removes a match from the query.
  abbrev pub purifies : NetworkService lib → lib.urls.Url → Bool
  purifies service url =
      service.url_purify_delegate.enabled
      && lib.urls.has_query url
      && ltb 0 (removed lib.urls service.url_purify_delegate url)

  abbrev pub purified_url : NetworkService lib → lib.urls.Url → lib.urls.Url
  purified_url service url =
      replace_query lib.urls url (purified lib.urls service.url_purify_delegate url)

  abbrev pub outcome :
      NetworkService lib
      → UrlLoader lib
      → UrlRequest lib
      → Option lib.urls.Url
      → lib.urls.Url
      → BeforeOutcome lib
  outcome service loader request new_url final_url = record {
    request = request;
    new_url = new_url;
    loader_notified = true;
    allow_raw_headers = some (service.has_raw_headers_access loader.process_id final_url);
  }

  maybe_truncate_referrer-url :
      (d : Delegate lib) (r : UrlRequest lib) (u : lib.urls.Url)
      → (maybe_truncate_referrer lib d r u).url ≡ r.url
  unfolding maybe_truncate_referrer
  maybe_truncate_referrer-url d r u = ground arith

  -- For a request with a loader, in a context with a network service, the hook never reads an
  -- absent URL. It truncates the referrer against the loader's redirect target, or the request's
  -- URL if there is none; the new URL is the request's own URL purified, if the purifier changes
  -- it, and else the redirect target; and raw headers are decided by the URL that results.
  pub on_before_url_request-purifies :
      (d : Delegate lib) (service : NetworkService lib) (loader : UrlLoader lib)
      (r : UrlRequest lib)
      → d.network_service ≡ some service
      → r.loader ≡ some loader
      → let truncated = maybe_truncate_referrer lib d r (effective lib r) in
        on_before_url_request lib d r
        ≡ done (
            if purifies service r.url
            then outcome service loader truncated
                (some (purified_url service r.url))
                (purified_url service r.url)
            else outcome service loader truncated loader.new_redirect_url (effective lib r))
  unfolding on_before_url_request purify_request
  on_before_url_request-purifies d service loader r s l =
      let u = effective lib r in
      let same = maybe_truncate_referrer-url d r u in
      ground (
        arith,
        same,
        ap (λ v. truncate_url_parameters lib.urls service.url_purify_delegate v u) same,
        truncate_url_parameters_lem lib.urls service.url_purify_delegate r.url u,
      )
