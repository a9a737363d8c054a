-- ===== src/Net/Loader/Total.antt =====
-- The whole life of a request, whatever its listeners answer, and its end.
use dumb_browser.Base.{
  ◌<◌, All, length, ℕ, ◌≡◌, refl, ◌∙◌, ap, Bool, true, false, not, ◌&&◌, Option, none, some, List,
  [], ◌∷◌, ◌++◌, if◌then◌else◌, is_ok, is_empty, Bool-cases, Option-cases, inl, inr, NetError,
  net_ok, err_aborted, Exec, done, fault, no_fuel, Returns, Returns->>=, arith,
}
use dumb_browser.Net.Libraries.{NetLibraries, ResourceRequest, ComputeRedirectInfo}
use dumb_browser.Net.RequestInfo.Made.{make_ctx_lem}
use dumb_browser.Net.Handler.{Handler, on_headers_received}
use package.dumb_browser.Net.Loader.{
  InProgressRequest, Continuation, Pipe, unbound, paused, bound, before_send_headers, send_headers,
  response_started, before_redirect, ResponseHead, Message, client_complete, remake_ctx,
  apply_effects, log, remove_request, on_request_error,
}
use package.dumb_browser.Net.Loader.Responses.{
  on_complete, on_write, run_continuation, after_headers_received,
  handle_response_or_redirect_headers, on_receive,
}
use package.dumb_browser.Net.Loader.Step.{
  Event, follow_redirect_event, set_priority, pause_reading_body, resume_reading_body,
  client_disconnected, receive_response, receive_redirect, upload_progress, receive_cached_metadata,
  transfer_size_updated, start_loading_body, completed, run_task, body_written,
  target_factory_reset, from_loader, run_first_task, handle, step, run, live, to_loader, is_bound,
  new_in_progress_request,
}
use package.dumb_browser.Net.Loader.Contract.{IsAccounted, Holds}
use package.dumb_browser.Net.Loader.Life.{live-IsAccounted}
use package.dumb_browser.Net.Loader.Requests.{restart_internal}
use dumb_browser.Net.Handler.Loop.{KeepsInfo}
use package.dumb_browser.Net.Loader.Ready.{
  Ready, IsStart, like, remove_request-Ready, on_request_error-Ready,
  continue_to_before_redirect-Ready, continue_to_before_send_headers-Ready,
  continue_to_send_headers-Ready,
}
use package.dumb_browser.Net.Loader.Ready.Restarted.{restart_internal-Ready, follow_redirect-Ready}
use package.dumb_browser.Net.Loader.Ready.Responded.{continue_to_response_started-Ready}

-- What GURL documents: a URL has one scheme.
abbrev pub HasOneScheme : NetLibraries → Type 0
HasOneScheme lib = (u : lib.Url) → lib.is_http_or_https u ≡ true → lib.is_chrome_scheme u ≡ false

module _ (lib : NetLibraries) where
  request_url-remake_ctx :
      (s : InProgressRequest lib) → (remake_ctx lib s).request_url ≡ s.request.url
  request_url-remake_ctx s =
      (make_ctx_lem lib s.request s.render_process_id s.frame_tree_node_id s.request_id
        s.browser_context s.ctx).1

  accounted :
      (fuel : ℕ) (m : Exec (InProgressRequest lib))
      → Returns (Ready lib fuel) m
      → Holds lib (IsAccounted lib) m
      → (s' : InProgressRequest lib) × (m ≡ done s') × IsAccounted lib s'
  accounted fuel (done s) r a = (s, refl, a)
  accounted fuel (fault f) r a = absurd r
  accounted fuel no_fuel r a = absurd r

  module _ (one : HasOneScheme lib) (compute : ComputeRedirectInfo lib) (fuel : ℕ) where
    run_continuation-Ready :
        (pipe_created : Bool) (s : InProgressRequest lib) (head : ResponseHead lib)
        (k : Continuation lib) (rv : NetError)
        → s.current_response ≡ some head
        → s.proxied_client_receiver ≡ bound
        → Ready lib fuel s
        → Returns (Ready lib fuel) (run_continuation lib compute pipe_created s k rv)
    unfolding run_continuation
    run_continuation-Ready pipe_created s head before_send_headers rv c b r =
        continue_to_before_send_headers-Ready lib fuel compute pipe_created s rv r
    run_continuation-Ready pipe_created s head send_headers rv c b r =
        continue_to_send_headers-Ready lib fuel compute s rv r
    run_continuation-Ready pipe_created s head response_started rv c b r =
        continue_to_response_started-Ready lib fuel compute s head rv c b r
    run_continuation-Ready pipe_created s head (before_redirect info) rv c b r =
        continue_to_before_redirect-Ready lib fuel compute s info rv r

    handle_response_or_redirect_headers-Ready :
        (pipe_created : Bool) (s : InProgressRequest lib) (head : ResponseHead lib)
        (k : Continuation lib)
        → s.current_response ≡ some head
        → s.proxied_client_receiver ≡ bound
        → Ready lib fuel s
        → Returns
            (Ready lib fuel)
            (handle_response_or_redirect_headers lib compute fuel pipe_created s k)
    unfolding handle_response_or_redirect_headers on_headers_received after_headers_received
        apply_effects
    handle_response_or_redirect_headers-Ready pipe_created s head k c b r =
        let s₀ : InProgressRequest lib = record s {
          override_headers = none;
          redirect_url = lib.empty_url;
        } in
        elim (Bool-cases (lib.is_http_or_https s.request.url)) [
          | inr e ↦ rw e (
              run_continuation-Ready pipe_created _ head k net_ok c b
                (like lib fuel s _ r.has_ctx refl refl r))
          | inl e ↦
              let chrome =
                ap lib.is_chrome_scheme (request_url-remake_ctx s₀) ∙ one s.request.url e in
              rw (e, c, r.quiet_headers, chrome)
                (run_continuation-Ready pipe_created _ head k net_ok c b
                  (like lib fuel s _ refl refl refl r))
        ]

    on_receive-Ready :
        (pipe_created : Bool) (s : InProgressRequest lib) (head : ResponseHead lib)
        (k : Continuation lib)
        → s.proxied_client_receiver ≡ bound
        → Ready lib fuel s
        → Returns (Ready lib fuel) (on_receive lib compute fuel pipe_created s head k)
    unfolding on_receive
    on_receive-Ready pipe_created s head k b r = elim (Option-cases s.ctx) [
      | inl n ↦ absurd (ground (arith, r.has_ctx))
      | inr (c, n) ↦ rw n (
          handle_response_or_redirect_headers-Ready pipe_created _ head k refl b
            (like lib fuel s _ refl refl refl r))
    ]

    log-Ready :
        (m : Message lib) (s : InProgressRequest lib)
        → Ready lib fuel s
        → Ready lib fuel (log lib m s)
    log-Ready m s r = like lib fuel s _ r.has_ctx refl refl r

    on_complete-Ready :
        (s : InProgressRequest lib) (status : NetError)
        → Ready lib fuel s
        → Ready lib fuel (on_complete lib s status)
    unfolding on_complete
    on_complete-Ready s status r = ground (
      arith,
      on_request_error-Ready lib fuel s status r,
      remove_request-Ready lib fuel _ (log-Ready (client_complete status) s r),
    )

    from_loader-Ready :
        (pipe_created : Bool) (s : InProgressRequest lib) (e : Event lib)
        → s.proxied_client_receiver ≡ bound
        → Ready lib fuel s
        → Returns (Ready lib fuel) (from_loader lib compute fuel pipe_created s e)
    unfolding from_loader
    from_loader-Ready pipe_created s (receive_response head) b r =
        on_receive-Ready pipe_created s head response_started b r
    from_loader-Ready pipe_created s (receive_redirect info head) b r =
        on_receive-Ready pipe_created s head (before_redirect info) b r
    from_loader-Ready pipe_created s (upload_progress n m) b r = log-Ready _ s r
    from_loader-Ready pipe_created s receive_cached_metadata b r = log-Ready _ s r
    from_loader-Ready pipe_created s transfer_size_updated b r = log-Ready _ s r
    from_loader-Ready pipe_created s start_loading_body b r = log-Ready _ s r
    from_loader-Ready pipe_created s (completed status) b r = on_complete-Ready s status r
    from_loader-Ready pipe_created s _ b r = r

    run_first_task-Ready :
        (pipe_created : Bool) (s : InProgressRequest lib) (ts : List (Continuation lib × NetError))
        → All IsStart ts
        → Ready lib fuel s
        → Returns (Ready lib fuel) (run_first_task lib compute pipe_created s ts)
    unfolding run_first_task run_continuation
    run_first_task-Ready pipe_created s [] starts r = r
    run_first_task-Ready pipe_created s ((k, rv) ∷ ts) (start, starts) r = rw start (
        continue_to_before_send_headers-Ready lib fuel compute pipe_created
          (record s { tasks = ts }) rv
          (record {
            has_ctx = r.has_ctx;
            keep = r.keep;
            enough = r.enough;
            quiet_headers = r.quiet_headers;
            starts = starts;
          }))

    to_loader-Ready :
        (m : Message lib) (s : InProgressRequest lib)
        → Ready lib fuel s
        → Ready lib fuel (to_loader lib m s)
    to_loader-Ready m s r = ground (arith, r, log-Ready m s r)

    is_bound-bound : (p : Pipe) → is_bound lib p ≡ true → p ≡ bound
    is_bound-bound bound e = refl
    is_bound-bound unbound e = cc
    is_bound-bound paused e = cc

    handle-Ready :
        (pipe_created : Bool) (s : InProgressRequest lib) (e : Event lib)
        → Ready lib fuel s
        → Returns (Ready lib fuel) (handle lib compute fuel pipe_created s e)
    unfolding handle on_write
    handle-Ready pipe_created s (follow_redirect_event params) r =
        follow_redirect-Ready lib fuel compute pipe_created params s r
    handle-Ready pipe_created s (set_priority n) r = to_loader-Ready _ s r
    handle-Ready pipe_created s pause_reading_body r = to_loader-Ready _ s r
    handle-Ready pipe_created s resume_reading_body r = to_loader-Ready _ s r
    handle-Ready pipe_created s client_disconnected r =
        on_request_error-Ready lib fuel s err_aborted r
    handle-Ready pipe_created s run_task r = run_first_task-Ready pipe_created s s.tasks r.starts r
    handle-Ready pipe_created s (body_written written) r =
        ground (arith, r, on_complete-Ready s net_ok r)
    handle-Ready pipe_created s target_factory_reset r = like lib fuel s _ r.has_ctx refl refl r
    handle-Ready pipe_created s e r = elim (Bool-cases (is_bound lib s.proxied_client_receiver)) [
      | inr n ↦ rw n r
      | inl y ↦
          rw y (from_loader-Ready pipe_created s e (is_bound-bound s.proxied_client_receiver y) r)
    ]

    step-Ready :
        (pipe_created : Bool) (s : InProgressRequest lib) (e : Event lib)
        → Ready lib fuel s
        → Returns (Ready lib fuel) (step lib compute fuel pipe_created s e)
    unfolding step
    step-Ready pipe_created s e r = ground (arith, r, handle-Ready pipe_created s e r)

    run-Ready :
        (pipe_created : Bool) (s : InProgressRequest lib) (es : List (Event lib))
        → Ready lib fuel s
        → Returns (Ready lib fuel) (run lib compute fuel pipe_created s es)
    unfolding run
    run-Ready pipe_created s [] r = r
    run-Ready pipe_created s (e ∷ es) r =
        Returns->>= (Ready lib fuel) (Ready lib fuel) (step lib compute fuel pipe_created s e) _
          (step-Ready pipe_created s e r) (λ s' r'. run-Ready pipe_created s' es r')

    -- While no headers listener is registered, with listeners that leave the handler's bookkeeping
    -- alone but answer what they like, at once or never, with fuel for all of them, and if no URL
    -- has both a web scheme and chrome's: the whole life of a request returns, without a null
    -- pointer, an unbound pipe, a missing callback or an index out of range, whatever its client,
    -- the loader, the UI thread, the data pipe and the factory's target do; and by then the client
    -- was told at most once that the request is over, and only by a request that is removed.
    pub live-returns :
        (pipe_created : Bool) (h : Handler lib (Continuation lib)) (target_factory : Bool)
        (request : ResourceRequest lib) (id process frame options : ℕ) (context : Option ℕ)
        (es : List (Event lib))
        → All (KeepsInfo lib) h.before_url_request_callbacks
        → length h.before_url_request_callbacks < fuel
        → h.headers_received_callbacks ≡ []
        → (s' : InProgressRequest lib) × (live lib compute fuel pipe_created
              (new_in_progress_request lib h target_factory request id process frame options
                context)
              es
            ≡ done s')
          × IsAccounted lib s'
    unfolding live new_in_progress_request
    live-returns pipe_created h target_factory request id process frame options context es keep lt
          qh =
        let fresh =
          new_in_progress_request lib h target_factory request id process frame options context in
        accounted fuel (live lib compute fuel pipe_created fresh es)
          (Returns->>= (Ready lib fuel) (Ready lib fuel)
            (restart_internal lib compute fuel pipe_created fresh) _
            (restart_internal-Ready lib fuel compute pipe_created fresh keep lt
              (ap (λ ls. is_empty ls) qh) tt)
            (λ s r. run-Ready pipe_created s es r))
          (live-IsAccounted lib compute fuel pipe_created h target_factory request id process frame
            options context es)

  module _ (compute : ComputeRedirectInfo lib) where
    -- When the loader reports the end of a request that is still there, over a pipe that is bound,
    -- the request is removed, and the client is told that status, unless it is an error of a
    -- request that was completed by a redirect before; and nothing else is sent.
    pub step-completed :
        (fuel : ℕ) (pipe_created : Bool) (s : InProgressRequest lib) (status : NetError)
        → s.removed ≡ false
        → s.proxied_client_receiver ≡ bound
        → (s' : InProgressRequest lib) × (step lib compute fuel pipe_created s (completed status)
            ≡ done s')
          × (s'.removed ≡ true)
          × (s'.messages ≡ (
              if s.request_completed && not (is_ok status)
              then s.messages
              else s.messages ++ client_complete status ∷ []))
    unfolding step handle from_loader on_complete on_request_error remove_request
    step-completed fuel pipe_created s status here b =
        (on_complete lib s status, ground arith, ground arith, ground arith)
