-- ===== src/NetworkDelegate/Libraries.antt =====
-- What the network delegate takes from Chromium, and the objects it asks: a loader, a web socket,
-- the cookie settings and the network service.
use dumb_browser.Base.{ℕ, String, Bool, Option, List, NetError}
use dumb_browser.PrivacyGuard.Libraries.{UrlLibraries}
use dumb_browser.PrivacyGuard.Delegate.{UrlPurifyDelegate}

pub record DelegateLibraries : Type 1 where
  pub urls : UrlLibraries
  pub parse_url : String → urls.Url
  pub Origin : Type 0
  pub create_origin : urls.Url → Origin
  pub origin_url : Origin → urls.Url
  pub is_same_origin : Origin → Origin → Bool
  pub ReferrerPolicy : Type 0
  pub no_referrer : ReferrerPolicy
  -- Whether the feature kCapReferrerToOriginOnCrossOrigin is enabled.
  pub cap_referrer_to_origin : Bool
  pub SiteForCookies : Type 0
  pub representative_url : SiteForCookies → urls.Url
  pub ResponseHeaders : Type 0
  pub normalized_header : ResponseHeaders → String → Option String
  -- `PendingCallbackChain`: the result for the results added, in order.
  pub chain_result : List NetError → NetError

pub record UrlLoader (lib : DelegateLibraries) : Type 0 where
  pub new_redirect_url : Option lib.urls.Url
  pub process_id : ℕ
  pub allow_cookies : lib.urls.Url → lib.SiteForCookies → Bool
  pub start_transaction_result : NetError
  pub headers_received_result : NetError
  -- whether it has a URLLoaderNetworkServiceObserver
  pub has_observer : Bool

pub record WebSocket (lib : DelegateLibraries) : Type 0 where
  pub allow_cookies : lib.urls.Url → Bool
  pub start_transaction_result : NetError
  pub headers_received_result : NetError

pub record UrlRequest (lib : DelegateLibraries) : Type 0 where
  pub url : lib.urls.Url
  pub referrer : String
  pub referrer_policy : lib.ReferrerPolicy
  pub site_for_cookies : lib.SiteForCookies
  pub top_frame_origin : Option lib.Origin
  pub loader : Option (UrlLoader lib)
  pub web_socket : Option (WebSocket lib)

pub record NetworkService (lib : DelegateLibraries) : Type 0 where
  pub url_purify_delegate : UrlPurifyDelegate lib.urls
  pub has_raw_headers_access : ℕ → lib.urls.Url → Bool

-- `NetworkServiceNetworkDelegate` with what it reads of its network context.
pub record Delegate (lib : DelegateLibraries) : Type 0 where
  pub enable_referrers : Bool
  pub validate_referrer_policy_on_initial_request : Bool
  pub has_proxy_error_client : Bool
  pub network_service : Option (NetworkService lib)
  -- `IsCookieAccessAllowed` with and without a top frame origin
  pub is_cookie_access_allowed : lib.urls.Url → lib.urls.Url → Option lib.Origin → Bool
  pub is_first_party_access_allowed : lib.urls.Url → lib.urls.Url → Bool
  pub has_client : Bool
  pub skip_reporting_permission_check : Bool
