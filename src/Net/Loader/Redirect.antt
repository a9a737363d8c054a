-- ===== src/Net/Loader/Redirect.antt =====
-- `CreateRedirectInfo`, `ContinueToBeforeRedirect` and `HandleBeforeRequestRedirect` of
-- dumb/browser/net/dumb_proxying_url_loader_factory.cc.
use dumb_browser.Base.{
  ℕ, String, ◌<>◌, true, false, not, ◌&&◌, ◌||◌, Option, none, some, if◌then◌else◌, is_ok, str_eq,
  NetError, net_ok, Exec, done, fault, null_pointer,
}
use dumb_browser.Net.Libraries.{NetLibraries, ResourceRequest, RedirectInfo, ComputeRedirectInfo}
use package.dumb_browser.Net.Loader.{
  InProgressRequest, ResponseHead, client_redirect, unbound, log, resume_if_bound, on_request_error,
}

module _ (lib : NetLibraries) (compute : ComputeRedirectInfo lib) where
  unfoldable pub create_redirect_info :
      ResourceRequest lib → lib.Url → ℕ → Option String → RedirectInfo lib
  create_redirect_info original_request new_url response_code referrer_policy_header =
      let update_first_party_url_on_redirect =
        original_request.update_first_party_url_on_redirect || original_request.is_main_frame in
      compute original_request update_first_party_url_on_redirect response_code new_url
        referrer_policy_header

  abbrev pub redirected_isolation_info :
      Option lib.IsolationInfo → lib.Url → Option lib.IsolationInfo
  redirected_isolation_info none url = none
  redirected_isolation_info (some info) url =
      some (lib.create_for_redirect info (lib.create_origin url))

  -- The request as it is after a redirect.
  unfoldable pub redirected_request : ResourceRequest lib → RedirectInfo lib → ResourceRequest lib
  redirected_request request info = record request {
    url = info.new_url;
    method = info.new_method;
    site_for_cookies = info.new_site_for_cookies;
    referrer = lib.parse_url info.new_referrer;
    referrer_policy = info.new_referrer_policy;
    isolation_info = redirected_isolation_info request.isolation_info info.new_url;
    request_body = if str_eq info.new_method lib.get_method then none else request.request_body;
  }

  unfoldable pub continue_to_before_redirect :
      InProgressRequest lib → RedirectInfo lib → NetError → Exec (InProgressRequest lib)
  unfolding redirected_request
  continue_to_before_redirect s redirect_info error_code =
      if not (is_ok error_code) then done (on_request_error lib s error_code) else elim s.ctx [
        | none ↦ fault null_pointer
        | some c ↦
            let redirect_source : lib.Url =
              if c.internal_redirect then lib.empty_url else s.request.url in
            done (record (log lib (client_redirect redirect_info s.current_response) s) {
              proxied_client_receiver = resume_if_bound lib s.proxied_client_receiver;
              ctx = some (record c { redirect_source = redirect_source });
              current_response = none;
              request = redirected_request s.request redirect_info;
              request_completed = true;
            })
      ]

  -- The tainted origin of a redirect across origins.
  abbrev pub tainted_initiator : ResourceRequest lib → lib.Url → Option lib.Origin
  tainted_initiator request redirect_url = elim request.request_initiator [
    | none ↦ none
    | some origin ↦
        if not (lib.is_same_origin (lib.create_origin redirect_url) (lib.create_origin request.url))
          && not (lib.is_same_origin origin (lib.create_origin request.url))
        then some lib.opaque_origin
        else some origin
  ]

  abbrev pub internal_redirect_headers : lib.Url → String
  internal_redirect_headers redirect_url =
      "HTTP/1.1 307 Internal Redirect\nLocation: "
      <> (lib.spec redirect_url <> "\nNon-Authoritative-Reason: WebRequest API\n\n")

  unfoldable pub handle_before_request_redirect :
      InProgressRequest lib → Exec (InProgressRequest lib)
  unfolding create_redirect_info
  handle_before_request_redirect s =
      let redirect_info = create_redirect_info s.request s.redirect_url 307 none in
      let head : ResponseHead lib = record {
        headers = some (lib.parse_headers (internal_redirect_headers s.redirect_url));
        parsed_headers = none;
      } in
      elim s.ctx [
        | none ↦ fault null_pointer
        | some c ↦
            continue_to_before_redirect
              (record s {
                proxied_client_receiver = unbound;
                target_loader = false;
                request = record s.request {
                  request_initiator = tainted_initiator s.request s.redirect_url;
                };
                current_response = some head;
                ctx = some (record c { internal_redirect = true });
              })
              redirect_info net_ok
      ]
