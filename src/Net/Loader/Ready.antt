-- ===== src/Net/Loader/Ready.antt =====
-- What a request needs to go on without a fault, through the ways to the network of
-- dumb/browser/net/dumb_proxying_url_loader_factory.cc.
use dumb_browser.Base.{
  ◌<◌, ◌++◌, ◌∷◌, [], All, length, All-append, subst, sym, ◌==◌, ◌&&◌, is_pending, ℕ, ◌≡◌, refl,
  ◌∙◌, ap, String, Bool, true, false, none, some, is_some, is_ok, is_empty, Bool-cases,
  Option-cases, inl, inr, value_or, NetError, net_ok, err_blocked_by_client,
  err_insufficient_resources, Returns, arith,
}
use dumb_browser.Net.Libraries.{NetLibraries, RedirectInfo, ComputeRedirectInfo}
use dumb_browser.Net.RequestInfo.{RequestInfo}
use dumb_browser.Net.Handler.Loop.{KeepsInfo}
use dumb_browser.Net.Handler.Completion.{asks_new_url}
use package.dumb_browser.Net.Loader.Refused.{verdict}
use package.dumb_browser.Net.Loader.Answers.{landed, restart_internal-landed}
use dumb_browser.Net.Handler.{
  is_internal_scheme, on_before_start_transaction, on_before_url_request, on_url_request_destroyed,
}
use package.dumb_browser.Net.Loader.{
  InProgressRequest, Continuation, before_send_headers, bound, ResponseHead, FollowRedirectParams,
  Message, client_complete, client_response, client_body, write_body, remake_ctx, apply_effects,
  resume_if_bound, log, remove_request, on_request_error,
}
use package.dumb_browser.Net.Loader.Redirect.{
  continue_to_before_redirect, handle_before_request_redirect,
}
use package.dumb_browser.Net.Loader.Requests.{
  continue_to_start_request, send_pending_redirect, continue_to_send_headers, answer_blocked,
  start_transaction, continue_to_before_send_headers, after_before_url_request, restart_internal,
  follow_redirect,
}
use package.dumb_browser.Net.Loader.Responses.{
  overridden_response, deliver_response, redirect_by_override, start_or_redirect,
  continue_to_response_started, override_redirect,
}
pub mod Restarted
pub mod Responded

-- Whether a task starts a request on its way, after its listeners.
abbrev pub IsStart : {lib : NetLibraries} → Continuation lib × NetError → Type 0
IsStart (k, rv) = k ≡ before_send_headers

module _ (lib : NetLibraries) (fuel : ℕ) where
  -- The request has an info, its listeners leave the handler's bookkeeping alone, there is fuel for
  -- all of them, no headers listener, and no task but those that were posted for the listeners.
  pub record Ready (s : InProgressRequest lib) : Type 0 where
    pub has_ctx : is_some s.ctx ≡ true
    pub keep : All (KeepsInfo lib) s.handler.before_url_request_callbacks
    pub enough : length s.handler.before_url_request_callbacks < fuel
    pub quiet_headers : is_empty s.handler.headers_received_callbacks ≡ true
    pub starts : All IsStart s.tasks

  -- The handler's listeners and the tasks are what counts, and that there is an info.
  like_listeners :
      (s t : InProgressRequest lib)
      → is_some t.ctx ≡ true
      → t.handler.before_url_request_callbacks ≡ s.handler.before_url_request_callbacks
      → t.handler.headers_received_callbacks ≡ s.handler.headers_received_callbacks
      → t.tasks ≡ s.tasks
      → Ready s
      → Ready t
  like_listeners s t c l h k r = record {
    has_ctx = c;
    keep = subst (λ ls. All (KeepsInfo lib) ls) (sym l) r.keep;
    enough = subst (λ ls. length ls < fuel) (sym l) r.enough;
    quiet_headers = ap (λ ls. is_empty ls) h ∙ r.quiet_headers;
    starts = subst (λ ts. All IsStart ts) (sym k) r.starts;
  }

  pub like :
      (s t : InProgressRequest lib)
      → is_some t.ctx ≡ true
      → t.handler ≡ s.handler
      → t.tasks ≡ s.tasks
      → Ready s
      → Ready t
  like s t c h k r =
      like_listeners s t c (ap (λ g. g.before_url_request_callbacks) h)
        (ap (λ g. g.headers_received_callbacks) h) k r

  pub remove_request-Ready : (s : InProgressRequest lib) → Ready s → Ready (remove_request lib s)
  unfolding remove_request on_url_request_destroyed
  remove_request-Ready s r =
      like_listeners s (remove_request lib s) r.has_ctx (ground arith) (ground arith) refl r

  pub on_request_error-Ready :
      (s : InProgressRequest lib) (status : NetError)
      → Ready s
      → Ready (on_request_error lib s status)
  unfolding on_request_error
  on_request_error-Ready s status r = ground (
    arith,
    remove_request-Ready s r,
    remove_request-Ready (log lib (client_complete status) s)
        (like s (log lib (client_complete status) s) r.has_ctx refl refl r),
  )

  send_pending_redirect-Ready :
      (c : RequestInfo lib) (s : InProgressRequest lib)
      → Ready s
      → Ready (send_pending_redirect lib c s)
  unfolding send_pending_redirect
  send_pending_redirect-Ready c s r =
      like s (send_pending_redirect lib c s) (ground (arith, r.has_ctx)) (ground arith)
        (ground arith) r

  started-Ready :
      (s : InProgressRequest lib) → Ready s → Ready (continue_to_start_request lib s net_ok)
  unfolding continue_to_start_request
  started-Ready s r =
      like s (continue_to_start_request lib s net_ok) (ground (arith, r.has_ctx)) (ground arith)
        (ground arith) r

  module _ (compute : ComputeRedirectInfo lib) where
    pub continue_to_before_redirect-Ready :
        (s : InProgressRequest lib) (info : RedirectInfo lib) (rv : NetError)
        → Ready s
        → Returns Ready (continue_to_before_redirect lib compute s info rv)
    unfolding continue_to_before_redirect
    continue_to_before_redirect-Ready s info rv r = elim (Bool-cases (is_ok rv)) [
      | inr e ↦ ground (arith, on_request_error-Ready s rv r)
      | inl e ↦ elim (Option-cases s.ctx) [
        | inl n ↦ absurd (ground (arith, r.has_ctx))
        | inr (c, n) ↦ rw (e, n) (like s _ refl refl refl r)
      ]
    ]

    handle_before_request_redirect-Ready :
        (s : InProgressRequest lib)
        → Ready s
        → Returns Ready (handle_before_request_redirect lib compute s)
    unfolding handle_before_request_redirect
    handle_before_request_redirect-Ready s r = elim (Option-cases s.ctx) [
      | inl n ↦ absurd (ground (arith, r.has_ctx))
      | inr (c, n) ↦ rw n (continue_to_before_redirect-Ready _ _ net_ok (like s _ refl refl refl r))
    ]

    pub continue_to_send_headers-Ready :
        (s : InProgressRequest lib) (rv : NetError)
        → Ready s
        → Returns Ready (continue_to_send_headers lib s rv)
    unfolding continue_to_send_headers
    continue_to_send_headers-Ready s rv r = elim (Bool-cases (is_ok rv)) [
      | inr e ↦ ground (arith, on_request_error-Ready s rv r)
      | inl e ↦ elim (Option-cases s.ctx) [
        | inl n ↦ absurd (ground (arith, r.has_ctx))
        | inr (c, n) ↦
            let sent = send_pending_redirect lib c s in
            let q = send_pending_redirect-Ready c s r in
            rw (e, n)
              (started-Ready
                (record sent {
                  proxied_client_receiver = resume_if_bound lib sent.proxied_client_receiver;
                })
                (like sent _ q.has_ctx refl refl q))
      ]
    ]

    answer_blocked-Ready :
        (pipe_created : Bool) (c : RequestInfo lib) (s : InProgressRequest lib)
        → Ready s
        → Ready (answer_blocked lib pipe_created c s)
    unfolding answer_blocked
    answer_blocked-Ready pipe_created c s r =
        let logged : (m : Message lib)
            → (t : InProgressRequest lib) → Ready t
            → Ready (log lib m t) =
          λ m t q. like t _ q.has_ctx refl refl q in
        let answered : Message lib =
          client_response (record { headers = none; parsed_headers = none }) in
        ground (
          arith,
          on_request_error-Ready s err_blocked_by_client r,
          on_request_error-Ready _ err_insufficient_resources (logged answered s r),
          logged write_body _ (logged client_body _ (logged answered s r)),
        )

    start_transaction-Ready :
        (s : InProgressRequest lib) → Ready s → Returns Ready (start_transaction lib s)
    unfolding start_transaction on_before_start_transaction
    start_transaction-Ready s r = ground (
      arith,
      continue_to_send_headers-Ready s net_ok r,
      continue_to_send_headers-Ready (record s { ctx = some (remake_ctx lib s) }) net_ok
          (like s _ refl refl refl r),
    )

    pub continue_to_before_send_headers-Ready :
        (pipe_created : Bool) (s : InProgressRequest lib) (rv : NetError)
        → Ready s
        → Returns Ready (continue_to_before_send_headers lib compute pipe_created s rv)
    unfolding continue_to_before_send_headers
    continue_to_before_send_headers-Ready pipe_created s rv r = elim (Option-cases s.ctx) [
      | inl n ↦ absurd (ground (arith, r.has_ctx))
      | inr (c, n) ↦
          let s' : InProgressRequest lib = record s {
            request = record s.request { referrer = value_or c.new_referrer s.request.referrer };
            proxied_client_receiver = resume_if_bound lib s.proxied_client_receiver;
          } in
          let r' = like s s' r.has_ctx refl refl r in
          ground (
            arith,
            on_request_error-Ready s rv r,
            handle_before_request_redirect-Ready s r,
            answer_blocked-Ready pipe_created c s' r',
            start_transaction-Ready s' r',
          )
    ]
