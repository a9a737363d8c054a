-- ===== src/Net/Loader/Responses.antt =====
-- The way back from the network service: `OnReceiveResponse`, `OnReceiveRedirect`, `OnComplete` and
-- what they lead to, of dumb/browser/net/dumb_proxying_url_loader_factory.cc.
use dumb_browser.Base.{
  ℕ, String, Bool, true, false, not, Option, none, some, if◌then◌else◌, is_ok, is_pending,
  is_blocked, NetError, net_ok, Exec, done, fault, null_pointer, unbound_pipe, ◌>>=◌,
}
use dumb_browser.Net.Libraries.{NetLibraries, ComputeRedirectInfo}
use dumb_browser.Net.Handler.{on_headers_received}
use package.dumb_browser.Net.Loader.{
  InProgressRequest, Continuation, before_send_headers, send_headers, response_started,
  before_redirect, ResponseHead, Pipe, unbound, bound, paused, client_response, client_complete,
  log, remake_ctx, after_handler, remove_request, on_request_error,
}
use package.dumb_browser.Net.Loader.Redirect.{create_redirect_info, continue_to_before_redirect}
use package.dumb_browser.Net.Loader.Requests.{
  continue_to_before_send_headers, continue_to_send_headers,
}

-- `proxied_client_receiver_.Pause()` and `Resume()` without a test: the pipe has to be bound.
abbrev pub pause : Pipe → Exec Pipe
pause unbound = fault unbound_pipe
pause _ = done paused

abbrev pub resume : Pipe → Exec Pipe
resume unbound = fault unbound_pipe
resume _ = done bound

module _ (lib : NetLibraries) where
  -- The response with the headers that listeners put in the place of its own.
  unfoldable pub overridden_response : InProgressRequest lib → Exec (Option (ResponseHead lib))
  overridden_response s = elim s.override_headers [
    | none ↦ done s.current_response
    | some headers ↦ elim s.current_response [
      | none ↦ fault null_pointer
      | some _ ↦ done (
          some (record {
            headers = some headers;
            parsed_headers = some (lib.populate_parsed_headers headers s.request.url);
          }))
    ]
  ]

  abbrev pub override_redirect : Option lib.ResponseHeaders → Option (lib.ResponseHeaders × String)
  override_redirect none = none
  override_redirect (some headers) = elim (lib.redirect_location headers) [
    | none ↦ none
    | some location ↦ some (headers, location)
  ]

  unfoldable pub deliver_response : InProgressRequest lib → Exec (InProgressRequest lib)
  deliver_response s = do
    receiver ← resume s.proxied_client_receiver
    elim s.current_response [
      | none ↦ fault null_pointer
      | some head ↦ done (record (log lib (client_response head) s) {
        proxied_client_receiver = receiver;
        current_response = none;
      })
    ]

  unfoldable pub on_complete : InProgressRequest lib → NetError → InProgressRequest lib
  on_complete s status =
      if not (is_ok status)
      then on_request_error lib s status
      else remove_request lib (log lib (client_complete status) s)

  -- `OnWrite`: the body of a mocked response is written, or the write failed.
  unfoldable pub on_write : InProgressRequest lib → Bool → InProgressRequest lib
  unfolding on_complete
  on_write s written = if not written then s else on_complete s net_ok

  module _ (compute : ComputeRedirectInfo lib) where
    unfoldable pub redirect_by_override :
        InProgressRequest lib → lib.ResponseHeaders → String → Exec (InProgressRequest lib)
    unfolding create_redirect_info
    redirect_by_override s headers location =
        let redirect_info =
          create_redirect_info lib compute s.request (lib.parse_url location)
            (lib.response_code headers) (lib.referrer_policy_header headers) in
        elim s.ctx [
          | none ↦ fault null_pointer
          | some c ↦
              continue_to_before_redirect lib compute
                (record s {
                  proxied_client_receiver = unbound;
                  target_loader = false;
                  ctx = some (record c { internal_redirect = true });
                })
                redirect_info net_ok
        ]

    -- The response goes to the client, unless the overriding headers make it a redirect.
    unfoldable pub start_or_redirect : InProgressRequest lib → Exec (InProgressRequest lib)
    start_or_redirect s = elim (override_redirect s.override_headers) [
      | none ↦ deliver_response s
      | some (headers, location) ↦ redirect_by_override s headers location
    ]

    unfoldable pub continue_to_response_started :
        InProgressRequest lib → NetError → Exec (InProgressRequest lib)
    continue_to_response_started s error_code =
        if not (is_ok error_code)
        then done (on_request_error lib s error_code)
        else (overridden_response s >>= λ response.
            start_or_redirect (record s { current_response = response }))

    -- A callback that the request handler was given is run.
    unfoldable pub run_continuation :
        Bool → InProgressRequest lib → Continuation lib → NetError → Exec (InProgressRequest lib)
    run_continuation pipe_created s before_send_headers rv =
        continue_to_before_send_headers lib compute pipe_created s rv
    run_continuation pipe_created s send_headers rv = continue_to_send_headers lib s rv
    run_continuation pipe_created s response_started rv = continue_to_response_started s rv
    run_continuation pipe_created s (before_redirect info) rv =
        continue_to_before_redirect lib compute s info rv

    -- What follows the call of `OnHeadersReceived`.
    unfoldable pub after_headers_received :
        Bool → InProgressRequest lib → Continuation lib → NetError → Exec (InProgressRequest lib)
    after_headers_received pipe_created s continuation result =
        if is_blocked result
        then done (on_request_error lib s result)
        else if is_pending result
        then (pause s.proxied_client_receiver >>= λ receiver.
            done (record s { proxied_client_receiver = receiver }))
        else run_continuation pipe_created s continuation net_ok

    unfoldable pub handle_response_or_redirect_headers :
        ℕ → Bool → InProgressRequest lib → Continuation lib → Exec (InProgressRequest lib)
    handle_response_or_redirect_headers fuel pipe_created s continuation =
        let s₀ : InProgressRequest lib = record s {
          override_headers = none;
          redirect_url = lib.empty_url;
        } in
        if lib.is_http_or_https s₀.request.url
        then elim s₀.current_response [
          | none ↦ fault null_pointer
          | some head ↦
              on_headers_received lib fuel s₀.handler (remake_ctx lib s₀) continuation head.headers
                none
              >>= λ (result, override, ran).
                  after_headers_received pipe_created
                    (after_handler lib (record s₀ { override_headers = override }) ran) continuation
                    result
        ]
        else run_continuation pipe_created s₀ continuation net_ok

    -- `OnReceiveResponse` and `OnReceiveRedirect`, which differ in their continuation.
    unfoldable pub on_receive :
        ℕ
        → Bool
        → InProgressRequest lib
        → ResponseHead lib
        → Continuation lib
        → Exec (InProgressRequest lib)
    on_receive fuel pipe_created s head continuation = elim s.ctx [
      | none ↦ fault null_pointer
      | some c ↦
          handle_response_or_redirect_headers fuel pipe_created
            (record s {
              current_response = some head;
              ctx = some (record c { internal_redirect = false });
            })
            continuation
    ]
