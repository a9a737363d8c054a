-- ===== src/Net/Loader/Life.antt =====
-- The life of a request of dumb/browser/net/dumb_proxying_url_loader_factory.cc, event by event.
use dumb_browser.Base.{
  ℕ, ◌≡◌, refl, Bool, true, false, Option, List, [], ◌∷◌, if◌then◌else◌, NetError, net_ok, Exec,
  done, fault, no_fuel, ◌>>=◌, err_aborted, arith,
}
use dumb_browser.Net.Libraries.{NetLibraries, ResourceRequest, ComputeRedirectInfo}
use dumb_browser.Net.Handler.{Handler}
use package.dumb_browser.Net.Loader.{
  InProgressRequest, Continuation, response_started, before_redirect, Message,
  client_upload_progress, client_cached_metadata, client_transfer_size, client_body,
  loader_set_priority, loader_pause, loader_resume, log,
}
use package.dumb_browser.Net.Loader.Responses.{on_write}
use package.dumb_browser.Net.Loader.Step.{
  Event, follow_redirect_event, set_priority, pause_reading_body, resume_reading_body,
  client_disconnected, receive_response, receive_redirect, upload_progress, receive_cached_metadata,
  transfer_size_updated, start_loading_body, completed, run_task, body_written,
  target_factory_reset, from_loader, run_first_task, handle, step, run, live, to_loader,
}
use package.dumb_browser.Net.Loader.Contract.{
  is_completion, IsOpen, IsAccounted, Holds, on_request_error-IsAccounted, on_complete-IsAccounted,
  log-IsOpen, IsOpen-IsAccounted,
}
use package.dumb_browser.Net.Loader.Step.{new_in_progress_request}
use package.dumb_browser.Net.Loader.Once.{
  keep, restart_internal-IsAccounted, follow_redirect-IsAccounted, run_continuation-IsAccounted,
  on_receive-IsAccounted,
}

module _ (lib : NetLibraries) where
  Holds-chain :
      (P Q : InProgressRequest lib → Type 0) (m : Exec (InProgressRequest lib))
      (k : InProgressRequest lib → Exec (InProgressRequest lib))
      → Holds lib P m
      → ((s : InProgressRequest lib) → P s → Holds lib Q (k s))
      → Holds lib Q (m >>= k)
  Holds-chain P Q (done s) k p h = h s p
  Holds-chain P Q (fault f) k p h = tt
  Holds-chain P Q no_fuel k p h = tt

  module _ (compute : ComputeRedirectInfo lib) where
    from_loader-IsAccounted :
        (fuel : ℕ) (pipe_created : Bool) (s : InProgressRequest lib) (e : Event lib)
        → IsOpen lib s
        → Holds lib (IsAccounted lib) (from_loader lib compute fuel pipe_created s e)
    unfolding from_loader
    from_loader-IsAccounted fuel pipe_created s (receive_response head) o =
        on_receive-IsAccounted lib compute fuel pipe_created s head response_started o
    from_loader-IsAccounted fuel pipe_created s (receive_redirect info head) o =
        on_receive-IsAccounted lib compute fuel pipe_created s head (before_redirect info) o
    from_loader-IsAccounted fuel pipe_created s (upload_progress current total) o =
        IsOpen-IsAccounted lib _ (log-IsOpen lib (client_upload_progress current total) s refl o)
    from_loader-IsAccounted fuel pipe_created s receive_cached_metadata o =
        IsOpen-IsAccounted lib _ (log-IsOpen lib client_cached_metadata s refl o)
    from_loader-IsAccounted fuel pipe_created s transfer_size_updated o =
        IsOpen-IsAccounted lib _ (log-IsOpen lib client_transfer_size s refl o)
    from_loader-IsAccounted fuel pipe_created s start_loading_body o =
        IsOpen-IsAccounted lib _ (log-IsOpen lib client_body s refl o)
    from_loader-IsAccounted fuel pipe_created s (completed status) o =
        on_complete-IsAccounted lib s status o
    from_loader-IsAccounted fuel pipe_created s _ o = IsOpen-IsAccounted lib s o

    to_loader-IsAccounted :
        (m : Message lib) (s : InProgressRequest lib)
        → is_completion lib m ≡ 0
        → IsOpen lib s
        → IsAccounted lib (to_loader lib m s)
    to_loader-IsAccounted m s e o = ground (
      arith,
      IsOpen-IsAccounted lib s o,
      IsOpen-IsAccounted lib (log lib m s) (log-IsOpen lib m s e o),
    )

    run_first_task-IsAccounted :
        (pipe_created : Bool) (s : InProgressRequest lib) (ts : List (Continuation lib × NetError))
        → IsOpen lib s
        → Holds lib (IsAccounted lib) (run_first_task lib compute pipe_created s ts)
    unfolding run_first_task
    run_first_task-IsAccounted pipe_created s [] o = IsOpen-IsAccounted lib s o
    run_first_task-IsAccounted pipe_created s ((k, rv) ∷ ts) o =
        run_continuation-IsAccounted lib compute pipe_created _ k rv (keep lib s _ o refl refl)

    handle-IsAccounted :
        (fuel : ℕ) (pipe_created : Bool) (s : InProgressRequest lib) (e : Event lib)
        → IsOpen lib s
        → Holds lib (IsAccounted lib) (handle lib compute fuel pipe_created s e)
    unfolding handle on_write
    handle-IsAccounted fuel pipe_created s (follow_redirect_event params) o =
        follow_redirect-IsAccounted lib compute fuel pipe_created params s o
    handle-IsAccounted fuel pipe_created s (set_priority n) o =
        to_loader-IsAccounted (loader_set_priority n) s refl o
    handle-IsAccounted fuel pipe_created s pause_reading_body o =
        to_loader-IsAccounted loader_pause s refl o
    handle-IsAccounted fuel pipe_created s resume_reading_body o =
        to_loader-IsAccounted loader_resume s refl o
    handle-IsAccounted fuel pipe_created s client_disconnected o =
        on_request_error-IsAccounted lib s err_aborted o
    handle-IsAccounted fuel pipe_created s run_task o =
        run_first_task-IsAccounted pipe_created s s.tasks o
    handle-IsAccounted fuel pipe_created s (body_written written) o =
        ground (arith, IsOpen-IsAccounted lib s o, on_complete-IsAccounted lib s net_ok o)
    handle-IsAccounted fuel pipe_created s target_factory_reset o = IsOpen-IsAccounted lib s o
    handle-IsAccounted fuel pipe_created s e o =
        ground (arith, IsOpen-IsAccounted lib s o, from_loader-IsAccounted fuel pipe_created s e o)

    -- No event tells the client twice that its request is over, nor at all without removing the
    -- request: what was so before an event is so after it.
    pub step-IsAccounted :
        (fuel : ℕ) (pipe_created : Bool) (s : InProgressRequest lib) (e : Event lib)
        → IsAccounted lib s
        → Holds lib (IsAccounted lib) (step lib compute fuel pipe_created s e)
    unfolding step
    step-IsAccounted fuel pipe_created s e a = by_presence s.removed refl
      where
        by_presence :
            (gone : Bool)
            → s.removed ≡ gone
            → Holds lib
                (IsAccounted lib)
                (if gone then done s else handle lib compute fuel pipe_created s e)
        by_presence true p = a
        by_presence false p =
            handle-IsAccounted fuel pipe_created s e (record { present = p; untold = ground arith })

    run-IsAccounted :
        (fuel : ℕ) (pipe_created : Bool) (s : InProgressRequest lib) (es : List (Event lib))
        → IsAccounted lib s
        → Holds lib (IsAccounted lib) (run lib compute fuel pipe_created s es)
    unfolding run
    run-IsAccounted fuel pipe_created s [] a = a
    run-IsAccounted fuel pipe_created s (e ∷ es) a =
        Holds-chain (IsAccounted lib) (IsAccounted lib) (step lib compute fuel pipe_created s e)
          (λ s'. run lib compute fuel pipe_created s' es) (step-IsAccounted fuel pipe_created s e a)
          (λ s' a'. run-IsAccounted fuel pipe_created s' es a')

    -- Over the whole life of a request, whatever its client, the loader, the tasks and the listeners
    -- do, the client is told at most once that it is over, and only by a request that is removed.
    pub live-IsAccounted :
        (fuel : ℕ) (pipe_created : Bool) (h : Handler lib (Continuation lib))
        (target_factory : Bool) (request : ResourceRequest lib) (id process frame options : ℕ)
        (context : Option ℕ) (es : List (Event lib))
        → Holds lib (IsAccounted lib) (
            live lib compute fuel pipe_created
              (new_in_progress_request lib h target_factory request id process frame options
                context)
              es)
    unfolding live new_in_progress_request
    live-IsAccounted fuel pipe_created h target_factory request id process frame options context
          es =
        Holds-chain (IsAccounted lib) (IsAccounted lib) _ _
          (restart_internal-IsAccounted lib compute fuel pipe_created _
            (record { present = refl; untold = refl }))
          (λ s a. run-IsAccounted fuel pipe_created s es a)
