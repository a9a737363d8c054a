-- ===== src/Net/Loader/Requests.antt =====
-- The way of a request to the network service: `Restart` to `ContinueToStartRequest`, and
-- `FollowRedirect`, of dumb/browser/net/dumb_proxying_url_loader_factory.cc. `pipe_created` says
-- whether `CreateDataPipe` succeeds; the fuel is the request handler's.
use dumb_browser.Base.{
  ℕ, String, Bool, true, false, not, ◌&&◌, Option, none, some, List, [], ◌∷◌, ◌++◌, if◌then◌else◌,
  is_ok, is_pending, is_blocked, value_or, NetError, net_ok, err_blocked_by_client,
  err_insufficient_resources, Exec, done, fault, null_pointer, ◌>>=◌,
}
use dumb_browser.Net.Libraries.{NetLibraries, ResourceRequest, ComputeRedirectInfo}
use dumb_browser.Net.RequestInfo.{RequestInfo, BlockedBy, not_blocked, should_mock_request}
use dumb_browser.Net.Handler.{on_before_url_request, on_before_start_transaction}
use package.dumb_browser.Net.Loader.{
  InProgressRequest, before_send_headers, send_headers, FollowRedirectParams, bound,
  client_response, client_body, write_body, loader_follow_redirect, create_loader, log,
  pause_if_bound, resume_if_bound, remake_ctx, after_handler, on_request_error,
}
use package.dumb_browser.Net.Loader.Redirect.{handle_before_request_redirect}

abbrev pub is_not_blocked : BlockedBy → Bool
is_not_blocked not_blocked = true
is_not_blocked _ = false

module _ (lib : NetLibraries) where
  unfoldable pub continue_to_start_request :
      InProgressRequest lib → NetError → InProgressRequest lib
  continue_to_start_request s error_code =
      if not (is_ok error_code)
      then on_request_error lib s error_code
      else (let resumed = resume_if_bound lib s.proxied_client_receiver in
          if not s.target_loader && s.target_factory
          then record (log lib (create_loader s.options s.request) s) {
            target_loader = true;
            proxied_client_receiver = bound;
          }
          else record s { proxied_client_receiver = resumed })

  -- The loop over `set_headers`. A header that the request lacks is a NOTREACHED, without effect in a
  -- release build.
  unfoldable pub copy_headers :
      lib.RequestHeaders → List String → lib.RequestHeaders → lib.RequestHeaders
  copy_headers from [] to = to
  copy_headers from (name ∷ names) to =
      copy_headers from names (elim (lib.get_request_header from name) [
        | none ↦ to
        | some value ↦ lib.set_request_header to name value
      ])

  -- The redirect that the client asked to follow, joined with what listeners did to the headers.
  unfoldable pub merged_params :
      RequestInfo lib → lib.RequestHeaders → FollowRedirectParams lib → FollowRedirectParams lib
  unfolding copy_headers
  merged_params ctx headers params = record params {
    removed_headers = params.removed_headers ++ ctx.removed_headers;
    modified_headers = copy_headers headers ctx.set_headers params.modified_headers;
  }

  unfoldable pub send_pending_redirect :
      RequestInfo lib → InProgressRequest lib → InProgressRequest lib
  unfolding merged_params
  send_pending_redirect ctx s = elim s.pending_follow_redirect_params [
    | none ↦ s
    | some params ↦
        let merged = merged_params ctx s.request.headers params in
        record (if s.target_loader then log lib (loader_follow_redirect merged) s else s) {
          pending_follow_redirect_params = none;
        }
  ]

  unfoldable pub continue_to_send_headers :
      InProgressRequest lib → NetError → Exec (InProgressRequest lib)
  continue_to_send_headers s error_code =
      if not (is_ok error_code) then done (on_request_error lib s error_code) else elim s.ctx [
        | none ↦ fault null_pointer
        | some ctx ↦
            let sent = send_pending_redirect ctx s in
            done (
              continue_to_start_request
                (record sent {
                  proxied_client_receiver = resume_if_bound lib sent.proxied_client_receiver;
                })
                net_ok)
      ]

  -- The answer to a request that a listener blocked.
  unfoldable pub answer_blocked :
      Bool → RequestInfo lib → InProgressRequest lib → InProgressRequest lib
  answer_blocked pipe_created ctx s =
      if not (should_mock_request lib ctx)
      then on_request_error lib s err_blocked_by_client
      else (let answered =
            log lib (client_response (record { headers = none; parsed_headers = none })) s in
          if not pipe_created
          then on_request_error lib answered err_insufficient_resources
          else log lib write_body (log lib client_body answered))

  unfoldable pub start_transaction : InProgressRequest lib → Exec (InProgressRequest lib)
  start_transaction s =
      if lib.is_http_or_https s.request.url
      then (let ctx = remake_ctx lib s in
          let (result, handler) = on_before_start_transaction lib s.handler ctx send_headers in
          let s' : InProgressRequest lib = record s { ctx = some ctx; handler = handler } in
          if is_blocked result
          then done (on_request_error lib s' result)
          else if is_pending result
          then done (record s' {
            proxied_client_receiver = pause_if_bound lib s'.proxied_client_receiver;
          })
          else continue_to_send_headers s' net_ok)
      else continue_to_send_headers s net_ok

  module _ (compute : ComputeRedirectInfo lib) where
    unfoldable pub continue_to_before_send_headers :
        Bool → InProgressRequest lib → NetError → Exec (InProgressRequest lib)
    continue_to_before_send_headers pipe_created s error_code =
        if not (is_ok error_code)
        then done (on_request_error lib s error_code)
        else if not (lib.is_empty_url s.redirect_url)
        then handle_before_request_redirect lib compute s
        else elim s.ctx [
          | none ↦ fault null_pointer
          | some ctx ↦
              let s' : InProgressRequest lib = record s {
                request = record s.request {
                  referrer = value_or ctx.new_referrer s.request.referrer;
                };
                proxied_client_receiver = resume_if_bound lib s.proxied_client_receiver;
              } in
              if not (is_not_blocked ctx.blocked_by)
              then done (answer_blocked pipe_created ctx s')
              else start_transaction s'
        ]

    -- What follows the call of `OnBeforeURLRequest`.
    unfoldable pub after_before_url_request :
        Bool → InProgressRequest lib → NetError → Exec (InProgressRequest lib)
    after_before_url_request pipe_created s result =
        if is_blocked result
        then done (on_request_error lib s result)
        else if is_pending result
        then done
            (record s { proxied_client_receiver = pause_if_bound lib s.proxied_client_receiver })
        else continue_to_before_send_headers pipe_created s net_ok

    unfoldable pub restart_internal :
        ℕ → Bool → InProgressRequest lib → Exec (InProgressRequest lib)
    restart_internal fuel pipe_created s =
        let s₀ : InProgressRequest lib = record s {
          request_completed = false;
          redirect_url = lib.empty_url;
        } in
        on_before_url_request lib fuel s₀.handler (remake_ctx lib s₀) before_send_headers
        >>= λ (result, ran). after_before_url_request pipe_created (after_handler lib s₀ ran) result

    unfoldable pub remove_request_headers : List String → lib.RequestHeaders → lib.RequestHeaders
    remove_request_headers [] headers = headers
    remove_request_headers (name ∷ names) headers =
        remove_request_headers names (lib.remove_request_header headers name)

    unfoldable pub follow_redirect :
        ℕ → Bool → FollowRedirectParams lib → InProgressRequest lib → Exec (InProgressRequest lib)
    unfolding remove_request_headers
    follow_redirect fuel pipe_created params s =
        let request : ResourceRequest lib = record s.request {
          url = value_or params.new_url s.request.url;
          headers =
              lib.merge_from (remove_request_headers params.removed_headers s.request.headers)
                params.modified_headers;
        } in
        let pending : Option (FollowRedirectParams lib) =
          if s.target_loader then some params else s.pending_follow_redirect_params in
        restart_internal fuel pipe_created
          (record s { request = request; pending_follow_redirect_params = pending })
