-- ===== src/Net/Loader/Once.antt =====
-- The client's contract carried through every event.
use dumb_browser.Base.{
  ℕ, ◌≡◌, refl, ◌∙◌, ap, String, Bool, false, none, Option-cases, inl, inr, value_or, NetError,
  net_ok, Exec, done, fault, no_fuel, ◌>>=◌, arith,
}
use dumb_browser.Net.Libraries.{NetLibraries, ComputeRedirectInfo}
use dumb_browser.Net.Handler.{Ran, on_before_url_request, on_headers_received}
use package.dumb_browser.Net.Loader.{
  InProgressRequest, Continuation, before_send_headers, send_headers, response_started,
  before_redirect, ResponseHead, FollowRedirectParams, remake_ctx, resume_if_bound, after_handler,
}
use package.dumb_browser.Net.Loader.Requests.{
  continue_to_before_send_headers, after_before_url_request, restart_internal, follow_redirect,
}
use package.dumb_browser.Net.Loader.Responses.{
  overridden_response, redirect_by_override, override_redirect, start_or_redirect,
  continue_to_response_started, run_continuation, after_headers_received,
  handle_response_or_redirect_headers, on_receive,
}
use package.dumb_browser.Net.Loader.Contract.{
  completions, IsOpen, IsAccounted, Holds, on_request_error-IsAccounted,
  continue_to_before_redirect-IsAccounted, handle_before_request_redirect-IsAccounted,
  continue_to_send_headers-IsAccounted, answer_blocked-IsAccounted, start_transaction-IsAccounted,
  apply_effects-IsOpen, deliver_response-IsAccounted, IsOpen-IsAccounted,
}

module _ (lib : NetLibraries) where
  Holds->>= {ℓ} :
      {A : Type ℓ} (P : InProgressRequest lib → Type 0) (m : Exec A)
      (k : A → Exec (InProgressRequest lib))
      → ((a : A) → Holds lib P (k a))
      → Holds lib P (m >>= k)
  Holds->>= P (done a) k h = h a
  Holds->>= P (fault f) k h = tt
  Holds->>= P no_fuel k h = tt

  -- A change of other fields keeps a request open.
  pub keep :
      (s t : InProgressRequest lib)
      → IsOpen lib s
      → t.removed ≡ s.removed
      → t.messages ≡ s.messages
      → IsOpen lib t
  keep s t o r m = record { present = r ∙ o.present; untold = ap (completions lib) m ∙ o.untold }

  after_handler-IsOpen :
      (s : InProgressRequest lib) (ran : Ran lib (Continuation lib))
      → IsOpen lib s
      → IsOpen lib (after_handler lib s ran)
  after_handler-IsOpen s ran o = apply_effects-IsOpen lib ran.effects _ (keep s _ o refl refl)

  module _ (compute : ComputeRedirectInfo lib) where
    pub continue_to_before_send_headers-IsAccounted :
        (pipe_created : Bool) (s : InProgressRequest lib) (rv : NetError)
        → IsOpen lib s
        → Holds lib
            (IsAccounted lib)
            (continue_to_before_send_headers lib compute pipe_created s rv)
    unfolding continue_to_before_send_headers
    continue_to_before_send_headers-IsAccounted pipe_created s rv o = elim (Option-cases s.ctx) [
      | inl e ↦ ground (
        arith,
        on_request_error-IsAccounted lib s rv o,
        handle_before_request_redirect-IsAccounted lib compute s o,
      )
      | inr (c, e) ↦
          let s' : InProgressRequest lib = record s {
            request = record s.request { referrer = value_or c.new_referrer s.request.referrer };
            proxied_client_receiver = resume_if_bound lib s.proxied_client_receiver;
          } in
          let o' = keep s s' o refl refl in
          ground (
            arith,
            on_request_error-IsAccounted lib s rv o,
            handle_before_request_redirect-IsAccounted lib compute s o,
            answer_blocked-IsAccounted lib pipe_created c s' o',
            start_transaction-IsAccounted lib s' o',
          )
    ]

    after_before_url_request-IsAccounted :
        (pipe_created : Bool) (s : InProgressRequest lib) (rv : NetError)
        → IsOpen lib s
        → Holds lib (IsAccounted lib) (after_before_url_request lib compute pipe_created s rv)
    unfolding after_before_url_request
    after_before_url_request-IsAccounted pipe_created s rv o = ground (
      arith,
      on_request_error-IsAccounted lib s rv o,
      IsOpen-IsAccounted lib s o,
      continue_to_before_send_headers-IsAccounted pipe_created s net_ok o,
    )

    pub restart_internal-IsAccounted :
        (fuel : ℕ) (pipe_created : Bool) (s : InProgressRequest lib)
        → IsOpen lib s
        → Holds lib (IsAccounted lib) (restart_internal lib compute fuel pipe_created s)
    unfolding restart_internal
    restart_internal-IsAccounted fuel pipe_created s o =
        let s₀ : InProgressRequest lib = record s {
          request_completed = false;
          redirect_url = lib.empty_url;
        } in
        Holds->>= (IsAccounted lib)
          (on_before_url_request lib fuel s₀.handler (remake_ctx lib s₀) before_send_headers)
          (λ (result, ran).
            after_before_url_request lib compute pipe_created (after_handler lib s₀ ran) result)
          (λ (result, ran).
            after_before_url_request-IsAccounted pipe_created (after_handler lib s₀ ran) result
              (after_handler-IsOpen s₀ ran (keep s s₀ o refl refl)))

    pub follow_redirect-IsAccounted :
        (fuel : ℕ) (pipe_created : Bool) (params : FollowRedirectParams lib)
        (s : InProgressRequest lib)
        → IsOpen lib s
        → Holds lib (IsAccounted lib) (follow_redirect lib compute fuel pipe_created params s)
    unfolding follow_redirect
    follow_redirect-IsAccounted fuel pipe_created params s o =
        restart_internal-IsAccounted fuel pipe_created _ (keep s _ o refl refl)

    redirect_by_override-IsAccounted :
        (s : InProgressRequest lib) (h : lib.ResponseHeaders) (location : String)
        → IsOpen lib s
        → Holds lib (IsAccounted lib) (redirect_by_override lib compute s h location)
    unfolding redirect_by_override
    redirect_by_override-IsAccounted s h location o = elim (Option-cases s.ctx) [
      | inl e ↦ rw e tt
      | inr (c, e) ↦
          rw e
            (continue_to_before_redirect-IsAccounted lib compute _ _ net_ok (keep s _ o refl refl))
    ]

    start_or_redirect-IsAccounted :
        (s : InProgressRequest lib)
        → IsOpen lib s
        → Holds lib (IsAccounted lib) (start_or_redirect lib compute s)
    unfolding start_or_redirect
    start_or_redirect-IsAccounted s o =
        elim (Option-cases (override_redirect lib s.override_headers)) [
          | inl e ↦ rw (e, start_or_redirect) (deliver_response-IsAccounted lib s o)
          | inr (h, e) ↦ rw (e, start_or_redirect) (redirect_by_override-IsAccounted s h.0 h.1 o)
        ]

    pub continue_to_response_started-IsAccounted :
        (s : InProgressRequest lib) (rv : NetError)
        → IsOpen lib s
        → Holds lib (IsAccounted lib) (continue_to_response_started lib compute s rv)
    unfolding continue_to_response_started
    continue_to_response_started-IsAccounted s rv o =
        let started =
          Holds->>= (IsAccounted lib) (overridden_response lib s)
            (λ response. start_or_redirect lib compute (record s { current_response = response }))
            (λ response. start_or_redirect-IsAccounted _ (keep s _ o refl refl)) in
        ground (arith, on_request_error-IsAccounted lib s rv o, started)

    pub run_continuation-IsAccounted :
        (pipe_created : Bool) (s : InProgressRequest lib) (k : Continuation lib) (rv : NetError)
        → IsOpen lib s
        → Holds lib (IsAccounted lib) (run_continuation lib compute pipe_created s k rv)
    unfolding run_continuation
    run_continuation-IsAccounted pipe_created s before_send_headers rv o =
        continue_to_before_send_headers-IsAccounted pipe_created s rv o
    run_continuation-IsAccounted pipe_created s send_headers rv o =
        continue_to_send_headers-IsAccounted lib s rv o
    run_continuation-IsAccounted pipe_created s response_started rv o =
        continue_to_response_started-IsAccounted s rv o
    run_continuation-IsAccounted pipe_created s (before_redirect info) rv o =
        continue_to_before_redirect-IsAccounted lib compute s info rv o

    after_headers_received-IsAccounted :
        (pipe_created : Bool) (s : InProgressRequest lib) (k : Continuation lib) (rv : NetError)
        → IsOpen lib s
        → Holds lib (IsAccounted lib) (after_headers_received lib compute pipe_created s k rv)
    unfolding after_headers_received
    after_headers_received-IsAccounted pipe_created s k rv o = ground (
      arith,
      on_request_error-IsAccounted lib s rv o,
      IsOpen-IsAccounted lib s o,
      run_continuation-IsAccounted pipe_created s k net_ok o,
    )

    handle_response_or_redirect_headers-IsAccounted :
        (fuel : ℕ) (pipe_created : Bool) (s : InProgressRequest lib) (k : Continuation lib)
        → IsOpen lib s
        → Holds lib
            (IsAccounted lib)
            (handle_response_or_redirect_headers lib compute fuel pipe_created s k)
    unfolding handle_response_or_redirect_headers
    handle_response_or_redirect_headers-IsAccounted fuel pipe_created s k o =
        let s₀ : InProgressRequest lib = record s {
          override_headers = none;
          redirect_url = lib.empty_url;
        } in
        elim (Option-cases s.current_response) [
          | inl e ↦
              ground (
                arith,
                run_continuation-IsAccounted pipe_created s₀ k net_ok (keep s s₀ o refl refl),
              )
          | inr (head, e) ↦
              let received =
                Holds->>= (IsAccounted lib)
                  (on_headers_received lib fuel s₀.handler (remake_ctx lib s₀) k head.headers none)
                  (λ (result, override, ran).
                    after_headers_received lib compute pipe_created
                      (after_handler lib (record s₀ { override_headers = override }) ran) k result)
                  (λ (result, override, ran).
                    after_headers_received-IsAccounted pipe_created _ k result (
                      after_handler-IsOpen (record s₀ { override_headers = override }) ran
                        (keep s _ o refl refl))) in
              ground (
                arith,
                run_continuation-IsAccounted pipe_created s₀ k net_ok (keep s s₀ o refl refl),
                received,
              )
        ]

    pub on_receive-IsAccounted :
        (fuel : ℕ) (pipe_created : Bool) (s : InProgressRequest lib) (head : ResponseHead lib)
        (k : Continuation lib)
        → IsOpen lib s
        → Holds lib (IsAccounted lib) (on_receive lib compute fuel pipe_created s head k)
    unfolding on_receive
    on_receive-IsAccounted fuel pipe_created s head k o = elim (Option-cases s.ctx) [
      | inl e ↦ rw e tt
      | inr (c, e) ↦ rw e (
          handle_response_or_redirect_headers-IsAccounted fuel pipe_created _ k
            (keep s _ o refl refl))
    ]
