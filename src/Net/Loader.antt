-- ===== src/Net/Loader.antt =====
-- `InProgressRequest` of dumb/browser/net/dumb_proxying_url_loader_factory.{h,cc}: its state.
-- The message log stands for the calls on mojo pipes, oldest first; the tasks are those that the
-- request handler posted for this request and that have not run yet. `start_time_` is left out: the
-- source never reads it.
pub mod Redirect
pub mod Requests
pub mod Responses
pub mod Step
pub mod Contract
pub mod Once
pub mod Life
pub mod Ready
pub mod Total
pub mod Refused
pub mod Answers
pub mod Later
pub mod Sent
pub mod Intercepted
mod Tests
use dumb_browser.Base.{
  ℕ, String, Bool, true, false, Option, none, some, List, [], ◌∷◌, ◌++◌, if◌then◌else◌, ◌==◌,
  NetError,
}
use dumb_browser.Net.Libraries.{NetLibraries, ResourceRequest, RedirectInfo}
use dumb_browser.Net.RequestInfo.{RequestInfo, make_ctx}
use dumb_browser.Net.Handler.{
  Handler, Effect, write_new_url, post_task, Ran, on_url_request_destroyed,
}

-- What a `net::CompletionOnceCallback` of a request runs.
pub data Continuation (lib : NetLibraries) : Type 0 where
  before_send_headers send_headers response_started : Continuation lib
  before_redirect : RedirectInfo lib → Continuation lib

pub data Pipe : Type 0 where
  unbound bound paused : Pipe

pub record ResponseHead (lib : NetLibraries) : Type 0 where
  pub headers : Option lib.ResponseHeaders
  pub parsed_headers : Option lib.ParsedHeaders

pub record FollowRedirectParams (lib : NetLibraries) : Type 0 where
  pub removed_headers : List String
  pub modified_headers : lib.RequestHeaders
  pub modified_cors_exempt_headers : lib.RequestHeaders
  pub new_url : Option lib.Url

pub data Message (lib : NetLibraries) : Type 0 where
  -- to `target_client_`
  client_complete : NetError → Message lib
  client_response : ResponseHead lib → Message lib
  client_redirect : RedirectInfo lib → Option (ResponseHead lib) → Message lib
  client_body : Message lib
  client_upload_progress : ℕ → ℕ → Message lib
  client_cached_metadata : Message lib
  client_transfer_size : Message lib
  -- to `target_loader_`
  loader_follow_redirect : FollowRedirectParams lib → Message lib
  loader_set_priority : ℕ → Message lib
  loader_pause : Message lib
  loader_resume : Message lib
  -- to `target_factory_`: `CreateLoaderAndStart`
  create_loader : ℕ → ResourceRequest lib → Message lib
  -- the empty body of a mocked response, written to its data pipe
  write_body : Message lib

pub record InProgressRequest (lib : NetLibraries) : Type 0 where
  pub ctx : Option (RequestInfo lib)
  pub request : ResourceRequest lib
  pub request_id : ℕ
  pub render_process_id : ℕ
  pub frame_tree_node_id : ℕ
  pub options : ℕ
  pub browser_context : Option ℕ
  pub proxied_client_receiver : Pipe
  -- whether `target_loader_` is bound
  pub target_loader : Bool
  pub current_response : Option (ResponseHead lib)
  pub override_headers : Option lib.ResponseHeaders
  pub redirect_url : lib.Url
  pub request_completed : Bool
  pub pending_follow_redirect_params : Option (FollowRedirectParams lib)
  -- `factory_->request_handler_`, and whether `factory_->target_factory_` is bound
  pub handler : Handler lib (Continuation lib)
  pub target_factory : Bool
  -- `RemoveRequest(this)` was called: the object is gone.
  pub removed : Bool
  pub messages : List (Message lib)
  pub tasks : List (Continuation lib × NetError)

module _ (lib : NetLibraries) where
  abbrev pub log : Message lib → InProgressRequest lib → InProgressRequest lib
  log m s = record s { messages = s.messages ++ m ∷ [] }

  -- `if (proxied_client_receiver_.is_bound()) proxied_client_receiver_.Pause();`
  abbrev pub pause_if_bound : Pipe → Pipe
  pause_if_bound unbound = unbound
  pause_if_bound _ = paused

  abbrev pub resume_if_bound : Pipe → Pipe
  resume_if_bound unbound = unbound
  resume_if_bound _ = bound

  -- `ctx_ = MakeCTX(request_, ..., ctx_)`
  abbrev pub remake_ctx : InProgressRequest lib → RequestInfo lib
  remake_ctx s =
      make_ctx lib s.request s.render_process_id s.frame_tree_node_id s.request_id s.browser_context
        s.ctx

  -- What the handler did, as this request sees it: `redirect_url_` is the URL that its info points
  -- at, and the tasks of other requests are not its own.
  unfoldable pub apply_effects :
      List (Effect lib (Continuation lib)) → InProgressRequest lib → InProgressRequest lib
  apply_effects [] s = s
  apply_effects (write_new_url i url ∷ es) s =
      apply_effects es (if i == s.request_id then record s { redirect_url = url } else s)
  apply_effects (post_task k rv ∷ es) s =
      apply_effects es (record s { tasks = s.tasks ++ (k, rv) ∷ [] })

  abbrev pub after_handler :
      InProgressRequest lib → Ran lib (Continuation lib) → InProgressRequest lib
  after_handler s ran =
      apply_effects ran.effects (record s { ctx = some ran.ctx; handler = ran.handler })

  -- `factory_->RemoveRequest(this)`, with the destructor.
  unfoldable pub remove_request : InProgressRequest lib → InProgressRequest lib
  remove_request s = record s {
    removed = true;
    handler = elim s.ctx [ none ↦ s.handler | some c ↦ on_url_request_destroyed lib s.handler c ];
  }

  unfoldable pub on_request_error : InProgressRequest lib → NetError → InProgressRequest lib
  unfolding remove_request
  on_request_error s status =
      remove_request (if s.request_completed then s else log (client_complete status) s)
