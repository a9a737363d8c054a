-- ===== src/Net/Loader/Contract.antt =====
-- What the client of a request can rely on.
use dumb_browser.Base.{
  ℕ, ◌+◌, ◌≤◌, ◌≡◌, refl, Bool, false, none, some, List, [], ◌∷◌, ◌++◌, if◌then◌else◌, ◌==◌,
  Option-cases, inl, inr, NetError, net_ok, err_blocked_by_client, err_insufficient_resources, Exec,
  done, fault, no_fuel, arith,
}
use dumb_browser.Net.Libraries.{NetLibraries, RedirectInfo, ComputeRedirectInfo}
use dumb_browser.Net.RequestInfo.{RequestInfo}
use dumb_browser.Net.Handler.{Effect, write_new_url, post_task, on_before_start_transaction}
use package.dumb_browser.Net.Loader.{
  InProgressRequest, Continuation, ResponseHead, Message, client_complete, client_response,
  client_body, write_body, remake_ctx, client_redirect, create_loader, loader_follow_redirect,
  resume_if_bound, log, apply_effects, remove_request, on_request_error,
}
use package.dumb_browser.Net.Loader.Redirect.{
  continue_to_before_redirect, handle_before_request_redirect,
}
use package.dumb_browser.Net.Loader.Requests.{
  merged_params, continue_to_start_request, send_pending_redirect, continue_to_send_headers,
  answer_blocked, start_transaction,
}
use package.dumb_browser.Net.Loader.Responses.{deliver_response, on_complete}

module _ (lib : NetLibraries) where
  abbrev pub is_completion : Message lib → ℕ
  is_completion (client_complete status) = 1
  is_completion _ = 0

  -- How often the client was told that the request is over.
  abbrev pub completions : List (Message lib) → ℕ
  completions [] = 0
  completions (m ∷ ms) = is_completion m + completions ms

  pub completions-append :
      (ms ns : List (Message lib)) → completions (ms ++ ns) ≡ completions ms + completions ns
  completions-append [] ns = omega arith
  completions-append (m ∷ ms) ns = omega (arith, completions-append ms ns)

  -- The request is still there, and the client was not told that it is over.
  pub record IsOpen (s : InProgressRequest lib) : Type 0 where
    pub present : s.removed ≡ false
    pub untold : completions s.messages ≡ 0

  -- The client was told at most once, and only by a request that is gone.
  abbrev pub IsAccounted : InProgressRequest lib → Type 0
  IsAccounted s = completions s.messages ≤ (if s.removed then 1 else 0)

  abbrev pub Holds : (InProgressRequest lib → Type 0) → Exec (InProgressRequest lib) → Type 0
  Holds P (done s) = P s
  Holds P (fault f) = Unit
  Holds P no_fuel = Unit

  pub on_request_error-IsAccounted :
      (s : InProgressRequest lib) (status : NetError)
      → IsOpen s
      → IsAccounted (on_request_error lib s status)
  unfolding on_request_error
  on_request_error-IsAccounted s status o =
      ground (arith, completions-append s.messages (client_complete status ∷ []))

  module _ (compute : ComputeRedirectInfo lib) where
    pub continue_to_before_redirect-IsAccounted :
        (s : InProgressRequest lib) (info : RedirectInfo lib) (rv : NetError)
        → IsOpen s
        → Holds IsAccounted (continue_to_before_redirect lib compute s info rv)
    unfolding continue_to_before_redirect
    continue_to_before_redirect-IsAccounted s info rv o = ground (
      arith,
      on_request_error-IsAccounted s rv o,
      completions-append s.messages (client_redirect info s.current_response ∷ []),
    )

    pub handle_before_request_redirect-IsAccounted :
        (s : InProgressRequest lib)
        → IsOpen s
        → Holds IsAccounted (handle_before_request_redirect lib compute s)
    unfolding handle_before_request_redirect
    handle_before_request_redirect-IsAccounted s o = elim (Option-cases s.ctx) [
      | inl e ↦ rw e tt
      | inr (c, e) ↦ rw e (
          continue_to_before_redirect-IsAccounted _ _ net_ok
            (record { present = o.present; untold = o.untold }))
    ]

  continue_to_start_request-IsAccounted :
      (s : InProgressRequest lib) (rv : NetError)
      → IsOpen s
      → IsAccounted (continue_to_start_request lib s rv)
  unfolding continue_to_start_request
  continue_to_start_request-IsAccounted s rv o = ground (
    arith,
    on_request_error-IsAccounted s rv o,
    completions-append s.messages (create_loader s.options s.request ∷ []),
  )

  send_pending_redirect-IsOpen :
      (c : RequestInfo lib) (s : InProgressRequest lib)
      → IsOpen s
      → IsOpen (send_pending_redirect lib c s)
  unfolding send_pending_redirect
  send_pending_redirect-IsOpen c s o = elim (Option-cases s.pending_follow_redirect_params) [
    | inl e ↦ ground arith
    | inr (p, e) ↦ ground (
      arith,
      completions-append s.messages
          (loader_follow_redirect (merged_params lib c s.request.headers p) ∷ []),
    )
  ]

  pub continue_to_send_headers-IsAccounted :
      (s : InProgressRequest lib) (rv : NetError)
      → IsOpen s
      → Holds IsAccounted (continue_to_send_headers lib s rv)
  unfolding continue_to_send_headers
  continue_to_send_headers-IsAccounted s rv o = elim (Option-cases s.ctx) [
    | inl e ↦ ground (arith, on_request_error-IsAccounted s rv o)
    | inr (c, e) ↦
        let sent = send_pending_redirect lib c s in
        let p = send_pending_redirect-IsOpen c s o in
        let resumed : InProgressRequest lib = record sent {
          proxied_client_receiver = resume_if_bound lib sent.proxied_client_receiver;
        } in
        ground (
          arith,
          on_request_error-IsAccounted s rv o,
          continue_to_start_request-IsAccounted resumed net_ok
              (record { present = p.present; untold = p.untold }),
        )
  ]

  pub log-IsOpen :
      (m : Message lib) (s : InProgressRequest lib)
      → is_completion m ≡ 0
      → IsOpen s
      → IsOpen (log lib m s)
  log-IsOpen m s e o = record {
    present = o.present;
    untold = omega (arith, completions-append s.messages (m ∷ []), o.untold);
  }

  pub IsOpen-IsAccounted : (s : InProgressRequest lib) → IsOpen s → IsAccounted s
  IsOpen-IsAccounted s o = ground arith

  pub answer_blocked-IsAccounted :
      (pipe_created : Bool) (c : RequestInfo lib) (s : InProgressRequest lib)
      → IsOpen s
      → IsAccounted (answer_blocked lib pipe_created c s)
  unfolding answer_blocked
  answer_blocked-IsAccounted pipe_created c s o =
      let head : ResponseHead lib = record { headers = none; parsed_headers = none } in
      let s₁ = log lib (client_response head) s in
      let o₁ = log-IsOpen (client_response head) s refl o in
      let s₂ = log lib client_body s₁ in
      let o₂ = log-IsOpen client_body s₁ refl o₁ in
      let o₃ = log-IsOpen write_body s₂ refl o₂ in
      ground (
        arith,
        on_request_error-IsAccounted s err_blocked_by_client o,
        on_request_error-IsAccounted s₁ err_insufficient_resources o₁,
        IsOpen-IsAccounted (log lib write_body s₂) o₃,
      )

  pub start_transaction-IsAccounted :
      (s : InProgressRequest lib) → IsOpen s → Holds IsAccounted (start_transaction lib s)
  unfolding start_transaction on_before_start_transaction
  start_transaction-IsAccounted s o =
      let s' : InProgressRequest lib = record s { ctx = some (remake_ctx lib s) } in
      ground (
        arith,
        continue_to_send_headers-IsAccounted s net_ok o,
        continue_to_send_headers-IsAccounted s' net_ok
            (record { present = o.present; untold = o.untold }),
      )

  pub apply_effects-IsOpen :
      (es : List (Effect lib (Continuation lib))) (s : InProgressRequest lib)
      → IsOpen s
      → IsOpen (apply_effects lib es s)
  unfolding apply_effects
  apply_effects-IsOpen [] s o = o
  apply_effects-IsOpen (write_new_url i url ∷ es) s o =
      apply_effects-IsOpen es (if i == s.request_id then record s { redirect_url = url } else s)
        (ground arith)
  apply_effects-IsOpen (post_task k rv ∷ es) s o =
      apply_effects-IsOpen es (record s { tasks = s.tasks ++ (k, rv) ∷ [] })
        (record { present = o.present; untold = o.untold })

  pub on_complete-IsAccounted :
      (s : InProgressRequest lib) (status : NetError)
      → IsOpen s
      → IsAccounted (on_complete lib s status)
  unfolding on_complete remove_request
  on_complete-IsAccounted s status o = ground (
    arith,
    on_request_error-IsAccounted s status o,
    completions-append s.messages (client_complete status ∷ []),
  )

  pub deliver_response-IsAccounted :
      (s : InProgressRequest lib) → IsOpen s → Holds IsAccounted (deliver_response lib s)
  unfolding deliver_response
  deliver_response-IsAccounted s o = elim (Option-cases s.current_response) [
    | inl e ↦ ground arith
    | inr (head, e) ↦ ground (arith, completions-append s.messages (client_response head ∷ []))
  ]
