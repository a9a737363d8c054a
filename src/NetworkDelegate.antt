-- ===== src/NetworkDelegate.antt =====
-- dumb/services/network/network_service_network_delegate.{h,cc}: the hooks of the network service.
-- What `URLLoader::ForRequest` and `WebSocket::ForRequest` find for a request is part of the request
-- here, with the answers of the loader or the socket that the delegate asks for. Logging and the
-- crash-dump aliases are left out.
pub mod Libraries
pub mod Headers
pub mod Cookies
pub mod BeforeRequest
mod Tests
use dumb_browser.Base.{
  ℕ, String, Bool, true, false, not, ◌&&◌, Option, none, some, List, [], ◌∷◌, ◌++◌, if◌then◌else◌,
  is_zero, is_none, NetError, net_ok, err_io_pending, err_proxy_auth_unsupported,
  err_proxy_connection_failed, err_tunnel_connection_failed, Exec, done, fault, empty_optional,
  ◌>>=◌,
}
use dumb_browser.PrivacyGuard.Delegate.{truncate_url_parameters}
use Libraries.{DelegateLibraries, UrlRequest, UrlLoader, WebSocket, Delegate, NetworkService}

-- What `OnBeforeURLRequest` leaves behind.
pub record BeforeOutcome (lib : DelegateLibraries) : Type 0 where
  pub request : UrlRequest lib
  -- `*new_url`; none if it was not written.
  pub new_url : Option lib.urls.Url
  -- `loader->OnBeforeURLRequest()` was called, and the argument of `SetAllowReportingRawHeaders`.
  pub loader_notified : Bool
  pub allow_raw_headers : Option Bool

module _ (lib : DelegateLibraries) where
  open lib.urls use {Url, spec}

  unfoldable pub maybe_truncate_referrer : Delegate lib → UrlRequest lib → Url → UrlRequest lib
  maybe_truncate_referrer d request effective_url =
      if not d.enable_referrers
      then record request { referrer = ""; referrer_policy = lib.no_referrer }
      else if lib.cap_referrer_to_origin
      then (let destination_origin = lib.create_origin effective_url in
          let source_origin = lib.create_origin (lib.parse_url request.referrer) in
          if not (lib.is_same_origin destination_origin source_origin)
          then record request { referrer = spec (lib.origin_url source_origin) }
          else request)
      else request

  -- The part behind `if (network_service)`; `redirect` is what `*new_url` holds so far.
  unfoldable pub purify_request :
      NetworkService lib
      → UrlLoader lib
      → UrlRequest lib
      → Option Url
      → Url
      → Exec (BeforeOutcome lib)
  purify_request service loader request redirect effective_url =
      let result =
        truncate_url_parameters lib.urls service.url_purify_delegate request.url effective_url in
      let finish : Option Url → Url → BeforeOutcome lib = λ new_url effective. record {
        request = request;
        new_url = new_url;
        loader_notified = true;
        allow_raw_headers = some (service.has_raw_headers_access loader.process_id effective);
      } in
      if not (is_zero result.count)
      then elim result.new_url [
        | none ↦ fault empty_optional
        | some url ↦ done (finish (some url) url)
      ]
      else done (finish redirect effective_url)

  abbrev pub loader_redirect : UrlRequest lib → Option Url
  loader_redirect request = elim request.loader [
    | none ↦ none
    | some loader ↦ loader.new_redirect_url
  ]

  abbrev pub effective : UrlRequest lib → Url
  effective request = elim (loader_redirect request) [ none ↦ request.url | some url ↦ url ]

  unfoldable pub on_before_url_request : Delegate lib → UrlRequest lib → Exec (BeforeOutcome lib)
  unfolding purify_request maybe_truncate_referrer
  on_before_url_request d request =
      let truncated = maybe_truncate_referrer d request (effective request) in
      elim request.loader [
        | none ↦ done (record {
          request = truncated;
          new_url = none;
          loader_notified = false;
          allow_raw_headers = none;
        })
        | some loader ↦ elim d.network_service [
          | none ↦ done (record {
            request = truncated;
            new_url = loader.new_redirect_url;
            loader_notified = true;
            allow_raw_headers = none;
          })
          | some service ↦
              purify_request service loader truncated loader.new_redirect_url (effective request)
        ]
      ]

  unfoldable pub on_before_start_transaction : UrlRequest lib → NetError
  on_before_start_transaction request = elim request.loader [
    | some loader ↦ loader.start_transaction_result
    | none ↦ elim request.web_socket [
      | some web_socket ↦ web_socket.start_transaction_result
      | none ↦ net_ok
    ]
  ]

  -- The result, and the header's value if the observer is told.
  unfoldable pub handle_clear_site_data_header :
      UrlRequest lib → Option lib.ResponseHeaders → NetError × Option String
  handle_clear_site_data_header request none = (net_ok, none)
  handle_clear_site_data_header request (some headers) = elim request.loader [
    | none ↦ (net_ok, none)
    | some loader ↦
        if not loader.has_observer
        then (net_ok, none)
        else elim (lib.normalized_header headers "Clear-Site-Data") [
          | none ↦ (net_ok, none)
          | some value ↦ (err_io_pending, some value)
        ]
  ]

  abbrev pub loader_results : Option (UrlLoader lib) → List NetError
  loader_results none = []
  loader_results (some loader) = loader.headers_received_result ∷ []

  abbrev pub web_socket_results : Option (WebSocket lib) → List NetError
  web_socket_results none = []
  web_socket_results (some web_socket) = web_socket.headers_received_result ∷ []

  -- The chain's result, from the results added to it in order, and what the observer is told.
  unfoldable pub on_headers_received :
      UrlRequest lib → Option lib.ResponseHeaders → NetError × Option String
  unfolding handle_clear_site_data_header
  on_headers_received request original_response_headers =
      let (result, told) = handle_clear_site_data_header request original_response_headers in
      (
        lib.chain_result (
            (loader_results request.loader ++ web_socket_results request.web_socket)
            ++ result ∷ []),
        told,
      )

  -- `FinishedClearSiteData`: the callback runs with OK if the request is still there.
  unfoldable pub finished_clear_site_data : Bool → Option NetError
  finished_clear_site_data request_alive = if request_alive then some net_ok else none

  abbrev pub is_proxy_error : NetError → Bool
  is_proxy_error err_proxy_auth_unsupported = true
  is_proxy_error err_proxy_connection_failed = true
  is_proxy_error err_tunnel_connection_failed = true
  is_proxy_error _ = false

  -- The error told to the proxy error client, if any.
  unfoldable pub forward_proxy_errors : Delegate lib → NetError → Option NetError
  forward_proxy_errors d net_error =
      if not d.has_proxy_error_client
      then none
      else if is_proxy_error net_error
      then some net_error
      else none

  unfoldable pub on_response_started : Delegate lib → NetError → Option NetError
  unfolding forward_proxy_errors
  on_response_started d net_error = forward_proxy_errors d net_error

  unfoldable pub on_completed : Delegate lib → Bool → NetError → Option NetError
  unfolding forward_proxy_errors
  on_completed d started net_error = forward_proxy_errors d net_error

  unfoldable pub on_pac_script_error : Delegate lib → ℕ → String → Option (ℕ × String)
  on_pac_script_error d line_number error =
      if not d.has_proxy_error_client then none else some (line_number, error)

  unfoldable pub on_can_get_cookies : Delegate lib → UrlRequest lib → Bool → Bool
  on_can_get_cookies d request allowed_from_caller =
      let allowed : Bool =
        allowed_from_caller
        && d.is_cookie_access_allowed request.url (lib.representative_url request.site_for_cookies)
            request.top_frame_origin in
      if not allowed then false else elim request.loader [
        | some loader ↦ loader.allow_cookies request.url request.site_for_cookies
        | none ↦ elim request.web_socket [
          | some web_socket ↦ web_socket.allow_cookies request.url
          | none ↦ true
        ]
      ]

  unfoldable pub on_can_set_cookie : Delegate lib → UrlRequest lib → Bool → Bool
  on_can_set_cookie d request allowed_from_caller =
      let allowed : Bool =
        allowed_from_caller
        && d.is_cookie_access_allowed request.url (lib.representative_url request.site_for_cookies)
            request.top_frame_origin in
      if not allowed then false else elim request.loader [
        | some loader ↦ loader.allow_cookies request.url request.site_for_cookies
        | none ↦ elim request.web_socket [
          | some web_socket ↦ web_socket.allow_cookies request.url
          | none ↦ true
        ]
      ]

  unfoldable pub on_force_privacy_mode :
      Delegate lib → Url → lib.SiteForCookies → Option lib.Origin → Bool
  on_force_privacy_mode d url site_for_cookies top_frame_origin =
      not
        (d.is_cookie_access_allowed url (lib.representative_url site_for_cookies) top_frame_origin)

  unfoldable pub on_cancel_url_request_with_policy_violating_referrer_header : Delegate lib → Bool
  on_cancel_url_request_with_policy_violating_referrer_header d =
      d.validate_referrer_policy_on_initial_request

  unfoldable pub on_can_queue_reporting_report : Delegate lib → lib.Origin → Bool
  on_can_queue_reporting_report d origin =
      d.is_first_party_access_allowed (lib.origin_url origin) (lib.origin_url origin)

  unfoldable pub on_can_set_reporting_client : Delegate lib → lib.Origin → Url → Bool
  on_can_set_reporting_client d origin endpoint =
      d.is_first_party_access_allowed (lib.origin_url origin) (lib.origin_url origin)

  unfoldable pub on_can_use_reporting_client : Delegate lib → lib.Origin → Url → Bool
  on_can_use_reporting_client d origin endpoint =
      d.is_first_party_access_allowed (lib.origin_url origin) (lib.origin_url origin)

  -- The origins that the callback is run with at once, or none if the client is asked about them.
  unfoldable pub on_can_send_reporting_reports :
      Delegate lib → List lib.Origin → Option (List lib.Origin)
  on_can_send_reporting_reports d origins =
      if not d.has_client
      then some []
      else if d.skip_reporting_permission_check
      then some origins
      else none
