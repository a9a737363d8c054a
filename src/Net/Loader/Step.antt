-- ===== src/Net/Loader/Step.antt =====
-- The life of an `InProgressRequest` of dumb/browser/net/dumb_proxying_url_loader_factory.cc as a
-- sequence of events: calls by its client, by the loader behind it, by the UI thread and by the data
-- pipe of a mocked response, and the end of the factory's target. The loader's calls come through `proxied_client_receiver_`, so they
-- arrive only while it is bound and not paused; nothing arrives once the request is removed.
use dumb_browser.Base.{
  ℕ, Bool, true, false, Option, none, List, [], ◌∷◌, if◌then◌else◌, NetError, err_aborted, Exec,
  done, ◌>>=◌,
}
use dumb_browser.Net.Libraries.{NetLibraries, ResourceRequest, RedirectInfo, ComputeRedirectInfo}
use dumb_browser.Net.Handler.{Handler}
use package.dumb_browser.Net.Loader.{
  InProgressRequest, Continuation, response_started, before_redirect, ResponseHead,
  FollowRedirectParams, Pipe, bound, unbound, Message, client_upload_progress,
  client_cached_metadata, client_transfer_size, client_body, loader_set_priority, loader_pause,
  loader_resume, log, on_request_error,
}
use package.dumb_browser.Net.Loader.Requests.{restart_internal, follow_redirect}
use package.dumb_browser.Net.Loader.Responses.{on_receive, on_complete, on_write, run_continuation}

pub data Event (lib : NetLibraries) : Type 0 where
  -- from the client
  follow_redirect_event : FollowRedirectParams lib → Event lib
  set_priority : ℕ → Event lib
  pause_reading_body resume_reading_body : Event lib
  client_disconnected : Event lib
  -- from the loader
  receive_response : ResponseHead lib → Event lib
  receive_redirect : RedirectInfo lib → ResponseHead lib → Event lib
  upload_progress : ℕ → ℕ → Event lib
  receive_cached_metadata transfer_size_updated start_loading_body : Event lib
  completed : NetError → Event lib
  -- from the UI thread and from the data pipe
  run_task : Event lib
  body_written : Bool → Event lib
  -- from the factory, whose target is lost or no longer called for
  target_factory_reset : Event lib

module _ (lib : NetLibraries) where
  unfoldable pub new_in_progress_request :
      Handler lib (Continuation lib)
      → Bool
      → ResourceRequest lib
      → ℕ
      → ℕ
      → ℕ
      → ℕ
      → Option ℕ
      → InProgressRequest lib
  new_in_progress_request handler target_factory request request_id render_process_id
        frame_tree_node_id options browser_context =
      record {
        ctx = none;
        request = request;
        request_id = request_id;
        render_process_id = render_process_id;
        frame_tree_node_id = frame_tree_node_id;
        options = options;
        browser_context = browser_context;
        proxied_client_receiver = unbound;
        target_loader = false;
        current_response = none;
        override_headers = none;
        redirect_url = lib.empty_url;
        request_completed = false;
        pending_follow_redirect_params = none;
        handler = handler;
        target_factory = target_factory;
        removed = false;
        messages = [];
        tasks = [];
      }

  abbrev pub to_loader : Message lib → InProgressRequest lib → InProgressRequest lib
  to_loader m s = if s.target_loader then log lib m s else s

  abbrev pub is_bound : Pipe → Bool
  is_bound bound = true
  is_bound _ = false

  -- `target_factory_.reset()` of OnTargetFactoryError and OnProxyBindingError
  abbrev pub reset_target_factory : InProgressRequest lib → InProgressRequest lib
  reset_target_factory s = record s { target_factory = false }

  module _ (compute : ComputeRedirectInfo lib) where
    -- A call of the loader that gets through.
    unfoldable pub from_loader :
        ℕ → Bool → InProgressRequest lib → Event lib → Exec (InProgressRequest lib)
    from_loader fuel pipe_created s (receive_response head) =
        on_receive lib compute fuel pipe_created s head response_started
    from_loader fuel pipe_created s (receive_redirect info head) =
        on_receive lib compute fuel pipe_created s head (before_redirect info)
    from_loader fuel pipe_created s (upload_progress current total) =
        done (log lib (client_upload_progress current total) s)
    from_loader fuel pipe_created s receive_cached_metadata =
        done (log lib client_cached_metadata s)
    from_loader fuel pipe_created s transfer_size_updated = done (log lib client_transfer_size s)
    from_loader fuel pipe_created s start_loading_body = done (log lib client_body s)
    from_loader fuel pipe_created s (completed status) = done (on_complete lib s status)
    from_loader fuel pipe_created s _ = done s

    unfoldable pub run_first_task :
        Bool
        → InProgressRequest lib
        → List (Continuation lib × NetError)
        → Exec (InProgressRequest lib)
    run_first_task pipe_created s [] = done s
    run_first_task pipe_created s ((k, rv) ∷ tasks) =
        run_continuation lib compute pipe_created (record s { tasks = tasks }) k rv

    unfoldable pub handle :
        ℕ → Bool → InProgressRequest lib → Event lib → Exec (InProgressRequest lib)
    handle fuel pipe_created s (follow_redirect_event params) =
        follow_redirect lib compute fuel pipe_created params s
    handle fuel pipe_created s (set_priority n) = done (to_loader (loader_set_priority n) s)
    handle fuel pipe_created s pause_reading_body = done (to_loader loader_pause s)
    handle fuel pipe_created s resume_reading_body = done (to_loader loader_resume s)
    handle fuel pipe_created s client_disconnected = done (on_request_error lib s err_aborted)
    handle fuel pipe_created s run_task = run_first_task pipe_created s s.tasks
    handle fuel pipe_created s (body_written written) = done (on_write lib s written)
    handle fuel pipe_created s target_factory_reset = done (reset_target_factory s)
    handle fuel pipe_created s e =
        if is_bound s.proxied_client_receiver then from_loader fuel pipe_created s e else done s

    unfoldable pub step :
        ℕ → Bool → InProgressRequest lib → Event lib → Exec (InProgressRequest lib)
    step fuel pipe_created s e = if s.removed then done s else handle fuel pipe_created s e

    unfoldable pub run :
        ℕ → Bool → InProgressRequest lib → List (Event lib) → Exec (InProgressRequest lib)
    run fuel pipe_created s [] = done s
    run fuel pipe_created s (e ∷ es) =
        step fuel pipe_created s e >>= λ s'. run fuel pipe_created s' es

    -- A request's whole life: `CreateLoaderAndStart` makes it and restarts it, then the events come.
    unfoldable pub live :
        ℕ → Bool → InProgressRequest lib → List (Event lib) → Exec (InProgressRequest lib)
    live fuel pipe_created s es =
        restart_internal lib compute fuel pipe_created s >>= λ s'. run fuel pipe_created s' es
