-- ===== src/NetworkDelegate/Tests.antt =====
-- The hooks over a small library: a URL is a text and perhaps a query, the query "spm=1" is tracked,
-- and the referrer of another origin is "http:ref/path".
use dumb_browser.Base.{
  ◌≡◌, ◌↔◌, ◌⊎◌, refl, String, Bool, true, false, Option, none, some, [], ◌∷◌, is_some,
  if◌then◌else◌, str_eq, value_or, net_ok, err_io_pending, err_proxy_auth_unsupported,
  err_proxy_connection_failed, err_tunnel_connection_failed, done, ◌+ℤ◌,
}
use dumb_browser.PrivacyGuard.Libraries.{UrlLibraries}
use dumb_browser.NetworkDelegate.{
  BeforeOutcome, maybe_truncate_referrer, on_before_url_request, handle_clear_site_data_header,
  on_response_started, on_completed, on_can_get_cookies, on_can_set_cookie,
}
use dumb_browser.NetworkDelegate.Libraries.{
  DelegateLibraries, UrlLoader, UrlRequest, NetworkService, Delegate,
}
use dumb_browser.NetworkDelegate.BeforeRequest.{outcome, on_before_url_request-purifies}
use dumb_browser.NetworkDelegate.Cookies.{
  MayUseCookies, on_can_get_cookies_iff, on_force_privacy_mode_excludes,
}
use dumb_browser.NetworkDelegate.Headers.{handle_clear_site_data_header_iff, on_completed_iff}

abbrev urls : UrlLibraries
urls = record {
  Regex = String;
  compile = λ _ p. p;
  matches = λ re s from to. false;
  global_replace = λ re s r. if str_eq s re then (1, r) else (0, s);
  join_string = λ parts sep. sep;
  Url = String × Option String;
  spec = λ u. u.0;
  has_query = λ u. is_some u.1;
  query = λ u. value_or u.1 "";
  clear_query = λ u. (u.0, none);
  set_query = λ u q. (u.0, some q);
}

abbrev toy : DelegateLibraries
toy = record {
  urls = urls;
  parse_url = λ s. (s, none);
  Origin = String;
  create_origin = λ u. u.0;
  origin_url = λ o. (o, none);
  is_same_origin = str_eq;
  ReferrerPolicy = Bool;
  no_referrer = true;
  cap_referrer_to_origin = true;
  SiteForCookies = String × Option String;
  representative_url = λ s. s;
  ResponseHeaders = String;
  normalized_header = λ h n. if str_eq h "" then none else some h;
  chain_result = λ es. net_ok;
}

abbrev service : NetworkService toy
service = record {
  url_purify_delegate = record {
    enabled = true;
    global_rules_matcher = record {
      name = "Global";
      url_matcher = ".*";
      url_exception_matcher = none;
      query_matchers = "spm=1" ∷ [];
    };
    per_site_matchers = [];
  };
  has_raw_headers_access = λ process url. str_eq url.0 "http:b";
}

-- The loader redirects to `http:b`, and the user agent forbids its cookies.
abbrev loader : UrlLoader toy
loader = record {
  new_redirect_url = some ("http:b", none);
  process_id = 3;
  allow_cookies = λ url site. false;
  start_transaction_result = net_ok;
  headers_received_result = net_ok;
  has_observer = true;
}

abbrev request : UrlRequest toy
request = record {
  url = ("http:a", some "spm=1");
  referrer = "http:ref/path";
  referrer_policy = false;
  site_for_cookies = ("http:a", none);
  top_frame_origin = none;
  loader = some loader;
  web_socket = none;
}

-- The settings block all cookies, so every request of theirs is in privacy mode.
abbrev delegate : Delegate toy
delegate = record {
  enable_referrers = true;
  validate_referrer_policy_on_initial_request = true;
  has_proxy_error_client = true;
  network_service = some service;
  is_cookie_access_allowed = λ url site origin. false;
  is_first_party_access_allowed = λ url site. true;
  has_client = true;
  skip_reporting_permission_check = false;
}

on_before_url_request-purifies_example :
    on_before_url_request toy delegate request
    ≡ done (
        outcome toy service loader
          (maybe_truncate_referrer toy delegate request ("http:b", none))
          (some ("http:a", none))
          ("http:a", none))
unfolding ◌+ℤ◌
on_before_url_request-purifies_example =
    on_before_url_request-purifies toy delegate service loader request refl refl

-- A web socket whose cookies the settings and the user agent allow.
abbrev allowing : Delegate toy
allowing = record delegate { is_cookie_access_allowed = λ url site origin. true }

abbrev socket_request : UrlRequest toy
socket_request = record request {
  loader = none;
  web_socket = some (record {
    allow_cookies = λ url. true;
    start_transaction_result = net_ok;
    headers_received_result = net_ok;
  });
}

on_can_get_cookies_iff_example :
    ((on_can_get_cookies toy allowing socket_request true ≡ true)
      ↔ MayUseCookies toy allowing socket_request true)
    × ((on_can_set_cookie toy allowing socket_request true ≡ true)
        ↔ MayUseCookies toy allowing socket_request true)
on_can_get_cookies_iff_example = on_can_get_cookies_iff toy allowing socket_request true

on_force_privacy_mode_excludes_example :
    (on_can_get_cookies toy delegate request true ≡ false)
    × (on_can_set_cookie toy delegate request true ≡ false)
unfolding dumb_browser.NetworkDelegate.on_force_privacy_mode
on_force_privacy_mode_excludes_example =
    on_force_privacy_mode_excludes toy delegate request true refl

handle_clear_site_data_header_iff_example :
    ((handle_clear_site_data_header toy request (some "cookies") ≡ (err_io_pending, some "cookies"))
      ↔ ((headers : String) × (l : UrlLoader toy) × (some "cookies" ≡ some headers)
          × (some loader ≡ some l)
          × (l.has_observer ≡ true)
          × ((if str_eq headers "" then none else some headers) ≡ some "cookies")))
    × (((handle_clear_site_data_header toy request (some "cookies")).0 ≡ err_io_pending)
        ↔ (is_some (handle_clear_site_data_header toy request (some "cookies")).1 ≡ true))
handle_clear_site_data_header_iff_example =
    handle_clear_site_data_header_iff toy request (some "cookies") "cookies"

on_completed_iff_example :
    (on_completed toy delegate true err_proxy_auth_unsupported
      ≡ on_response_started toy delegate err_proxy_auth_unsupported)
    × ((on_completed toy delegate true err_proxy_auth_unsupported ≡ some err_proxy_auth_unsupported)
        ↔ ((true ≡ true)
            × (err_proxy_auth_unsupported ≡ err_proxy_auth_unsupported)
            × ((err_proxy_auth_unsupported ≡ err_proxy_auth_unsupported)
                ⊎ (err_proxy_auth_unsupported ≡ err_proxy_connection_failed)
                ⊎ (err_proxy_auth_unsupported ≡ err_tunnel_connection_failed))))
on_completed_iff_example =
    on_completed_iff toy delegate true err_proxy_auth_unsupported err_proxy_auth_unsupported
