-- ===== src/Net/Loader/Intercepted.antt =====
-- What interception comes to for a new request: `Restart` of
-- dumb/browser/net/dumb_proxying_url_loader_factory.cc, the request handler's listeners at once or
-- through late answers, and the task that follows them.
use dumb_browser.Base.{
  ℕ, ◌<◌, ◌≡◌, refl, ◌∙◌, ap, Bool, true, false, not, ◌&&◌, Option, none, some, List, [], ◌∷◌,
  if◌then◌else◌, is_ok, is_empty, length, All, value_or, Bool-cases, inl, inr, NetError, done,
  Returns, Returns-weaken, returned, ◌>>=◌,
}
use dumb_browser.Net.Libraries.{NetLibraries, ResourceRequest, ComputeRedirectInfo}
use dumb_browser.Net.RequestInfo.{RequestInfo}
use dumb_browser.Net.Handler.{Handler, is_internal_scheme}
use dumb_browser.Net.Handler.Loop.{KeepsInfo}
use dumb_browser.Net.Handler.Completion.{asks_new_url}
use dumb_browser.Net.Handler.Resumed.{Write, answers, Settles}
use package.dumb_browser.Net.Loader.{
  InProgressRequest, Continuation, before_send_headers, Message, client_complete, client_redirect,
  create_loader, remake_ctx, on_request_error, remove_request,
}
use package.dumb_browser.Net.Loader.Redirect.{create_redirect_info, internal_redirect_headers}
use package.dumb_browser.Net.Loader.Requests.{
  is_not_blocked, restart_internal, continue_to_before_send_headers,
}
use package.dumb_browser.Net.Loader.Responses.{run_continuation}
use package.dumb_browser.Net.Loader.Step.{
  run_task, run_first_task, handle, step, run, new_in_progress_request,
}
use package.dumb_browser.Net.Loader.Refused.{verdict}
use package.dumb_browser.Net.Loader.Answers.{listeners_answered}
use package.dumb_browser.Net.Loader.Later.{settled, restart_internal-answered_later}
use package.dumb_browser.Net.Loader.Sent.{
  Started, Redirected, continue_to_before_send_headers-Started,
  continue_to_before_send_headers-Redirected, continue_to_before_send_headers-refused,
}

module _ (lib : NetLibraries) (compute : ComputeRedirectInfo lib) where
  -- The URL that listeners ask for, and the empty one if they ask for none.
  abbrev pub asked_url : NetError × RequestInfo lib → lib.Url
  asked_url (rv, end) =
      if is_ok rv && asks_new_url lib end then lib.parse_url end.new_url_spec else lib.empty_url

  -- The one message that follows from what the listeners come to.
  abbrev pub answer : ResourceRequest lib → ℕ → NetError × RequestInfo lib → Message lib
  answer request options (rv, end) =
      if not (is_ok rv)
      then client_complete rv
      else if not (lib.is_empty_url (asked_url (rv, end)))
      then client_redirect (create_redirect_info lib compute request (asked_url (rv, end)) 307 none)
          (some (record {
            headers =
                some
                  (lib.parse_headers (internal_redirect_headers lib compute (asked_url (rv, end))));
            parsed_headers = none;
          }))
      else create_loader options
          (record request { referrer = value_or end.new_referrer request.referrer })

  -- What is then left of the request.
  abbrev pub Answered :
      ResourceRequest lib → ℕ → NetError × RequestInfo lib → InProgressRequest lib → Type 0
  Answered request options v s =
      (s.messages ≡ answer request options v ∷ [])
      × (s.removed ≡ not (is_ok v.0))
      × (s.target_loader ≡ (is_ok v.0 && lib.is_empty_url (asked_url v)))

  run-one :
      (fuel : ℕ) (pipe_created : Bool) (s : InProgressRequest lib) (rv : NetError)
      → s.removed ≡ false
      → s.tasks ≡ (before_send_headers, rv) ∷ []
      → run lib compute fuel pipe_created s (run_task ∷ []) ≡ (
          continue_to_before_send_headers lib compute pipe_created (record s { tasks = [] }) rv
          >>= λ s'. done s')
  unfolding run step handle run_first_task run_continuation
  run-one fuel pipe_created s rv here ts = simp (here, ts) refl

  Answered-Redirected :
      (s s' : InProgressRequest lib) (rv : NetError) (end : RequestInfo lib)
      → is_ok rv ≡ true
      → lib.is_empty_url (asked_url (rv, end)) ≡ false
      → s.messages ≡ []
      → s.removed ≡ false
      → s.redirect_url ≡ asked_url (rv, end)
      → Redirected lib compute s s'
      → Answered s.request s.options (rv, end) s'
  Answered-Redirected s s' rv end y there unsent here url (m, r, t) =
      (m ∙ rw (unsent, url, there, y) refl, r ∙ here ∙ rw y refl, t ∙ rw (there, y) refl)

  Answered-Started :
      (s s' : InProgressRequest lib) (rv : NetError) (end : RequestInfo lib)
      → is_ok rv ≡ true
      → lib.is_empty_url (asked_url (rv, end)) ≡ true
      → s.messages ≡ []
      → s.removed ≡ false
      → Started lib s end s'
      → Answered s.request s.options (rv, end) s'
  Answered-Started s s' rv end y none_there unsent here (m, r, t) =
      (m ∙ rw (unsent, none_there, y) refl, r ∙ here ∙ rw y refl, t ∙ rw (none_there, y) refl)

  -- A request that waits for the one task that its listeners' result has posted.
  abbrev Waiting : InProgressRequest lib → NetError × RequestInfo lib → Type 0
  Waiting s (rv, end) =
      (s.messages ≡ [])
      × (s.removed ≡ false)
      × (s.ctx ≡ some end)
      × (s.target_factory ≡ true)
      × (s.target_loader ≡ false)
      × (s.pending_follow_redirect_params ≡ none)
      × (s.redirect_url ≡ asked_url (rv, end))
      × (s.request_completed ≡ false)

  continue_to_before_send_headers-Answered :
      (pipe_created : Bool) (s : InProgressRequest lib) (v : NetError × RequestInfo lib)
      → is_not_blocked v.1.blocked_by ≡ true
      → Waiting s v
      → Returns
          (Answered s.request s.options v)
          (continue_to_before_send_headers lib compute pipe_created s v.0)
  unfolding on_request_error remove_request
  continue_to_before_send_headers-Answered pipe_created s (rv, end) free
        (unsent, here, info, target, fresh, no_params, url, going) =
      elim (Bool-cases (is_ok rv)) [
        | inr n ↦
            rw
              (
                continue_to_before_send_headers-refused lib compute pipe_created s rv n,
                n,
                going,
                unsent,
              )
              (refl, refl, fresh)
        | inl y ↦ elim (Bool-cases (lib.is_empty_url (asked_url (rv, end)))) [
          | inr there ↦
              Returns-weaken (Redirected lib compute s) (Answered s.request s.options (rv, end)) _
                (λ s' r. Answered-Redirected s s' rv end y there unsent here url r)
                (continue_to_before_send_headers-Redirected lib compute pipe_created s end rv y info
                  (ap lib.is_empty_url url ∙ there))
          | inl none_there ↦
              Returns-weaken (Started lib s end) (Answered s.request s.options (rv, end)) _
                (λ s' r. Answered-Started s s' rv end y none_there unsent here r)
                (continue_to_before_send_headers-Started lib compute pipe_created s end rv y info
                  (ap lib.is_empty_url url ∙ none_there) free target fresh no_params)
        ]
      ]

  -- Let listeners that leave the handler's bookkeeping alone stand before a new request, with a
  -- factory to go on to and a URL of no internal scheme, on enough fuel for all of them. Let any
  -- number of them, one after the other, be pending and answer later, until the request is settled
  -- with nothing that blocks it, and then let the posted task run. The client or the factory gets
  -- one message in all: the error that the listeners came to, for which the request is removed; or
  -- the internal redirect to the URL they asked for; or else the start of the loader, with the
  -- referrer they set in place of the request's, and only then is there a loader.
  pub live-intercepted :
      (fuel : ℕ) (pipe_created : Bool) (h : Handler lib (Continuation lib))
      (request : ResourceRequest lib) (id process frame options : ℕ) (context : Option ℕ)
      (writes : List (Write lib))
      → let s = new_in_progress_request lib h true request id process frame options context in
        let v = answers lib h.before_url_request_callbacks writes (verdict lib compute s) in
        is_empty h.before_url_request_callbacks ≡ false
        → is_internal_scheme lib (remake_ctx lib s) ≡ false
        → All (KeepsInfo lib) h.before_url_request_callbacks
        → length h.before_url_request_callbacks < fuel
        → Settles lib h.before_url_request_callbacks writes (verdict lib compute s)
        → is_not_blocked v.1.blocked_by ≡ true
        → (s' : InProgressRequest lib) × (((restart_internal lib compute fuel pipe_created s
                >>= λ s''. listeners_answered lib fuel writes s'')
              >>= λ s''. run lib compute fuel pipe_created s'' (run_task ∷ []))
            ≡ done s')
          × Answered request options v s'
  unfolding new_in_progress_request
  live-intercepted fuel pipe_created h request id process frame options context writes some_listener
        external keep lt settles free =
      let s = new_in_progress_request lib h true request id process frame options context in
      let v = answers lib h.before_url_request_callbacks writes (verdict lib compute s) in
      let t : InProgressRequest lib = record (settled lib compute s v) { tasks = [] } in
      let (s', run_t, result) =
        returned (Answered request options v)
          (continue_to_before_send_headers lib compute pipe_created t v.0)
          (continue_to_before_send_headers-Answered pipe_created t v free
            (refl, refl, refl, refl, refl, refl, refl, refl)) in
      (
        s',
        ap (λ m. m >>= λ s''. run lib compute fuel pipe_created s'' (run_task ∷ []))
              (restart_internal-answered_later lib compute fuel pipe_created s writes some_listener
                external keep lt settles)
            ∙ run-one fuel pipe_created (settled lib compute s v) v.0 refl refl
            ∙ ap (λ m. m >>= λ s''. done s'') run_t,
        result,
      )
