-- ===== src/Net/Loader/Tests.antt =====
-- Requests over the small network library; "http:a" redirects nowhere.
use dumb_browser.Base.{
  ◌>>=◌, ◌≡◌, refl, true, none, some, [], ◌∷◌, net_ok, err_blocked_by_client, err_io_pending,
  err_failed, done, arith,
}
use dumb_browser.Net.Libraries.{ComputeRedirectInfo}
use dumb_browser.Net.Toy.{toy, toy_request}
use dumb_browser.Net.RequestInfo.{RequestInfo, on_before_request, make_ctx, new_request_info}
use dumb_browser.Net.Handler.{Listener, Handler, is_internal_scheme}
use dumb_browser.Net.Handler.Resumed.{Write, answers}
use dumb_browser.Net.Loader.Requests.{restart_internal}
use dumb_browser.Net.Loader.Answers.{
  listener_answered, listeners_answered, listener_answered-remove_request,
}
use dumb_browser.Net.Loader.Intercepted.{Answered, live-intercepted}
use dumb_browser.Net.Loader.Later.{settled, restart_internal-answered_later}
use dumb_browser.Net.Loader.{
  before_send_headers, remove_request, Continuation, InProgressRequest, ResponseHead, bound,
  client_complete,
}
use dumb_browser.Net.Loader.Step.{
  step, run, live, new_in_progress_request, client_disconnected, run_task, receive_response,
  completed,
}
use dumb_browser.Net.Loader.Contract.{IsAccounted}
use dumb_browser.Net.Loader.Refused.{verdict, live-refused}
use dumb_browser.Net.Loader.Total.{HasOneScheme, live-returns, step-completed}

abbrev redirect : ComputeRedirectInfo toy
redirect r update code url policy = record {
  new_url = url;
  new_method = r.method;
  new_site_for_cookies = tt;
  new_referrer = "";
  new_referrer_policy = tt;
}

abbrev quiet : Handler toy (Continuation toy)
quiet = record {
  before_url_request_callbacks = [];
  headers_received_callbacks = [];
  callbacks = [];
}

abbrev fresh : InProgressRequest toy
fresh = new_in_progress_request toy quiet true toy_request 7 1 2 3 none

abbrev response : ResponseHead toy
response = record { headers = some "Expect-CT"; parsed_headers = none }

toy-HasOneScheme : HasOneScheme toy
toy-HasOneScheme u h = ground arith

-- A listener that refuses every request.
abbrev refuses : Listener toy
refuses ctx = (err_blocked_by_client, ctx)

abbrev refusing : Handler toy (Continuation toy)
refusing = record quiet { before_url_request_callbacks = refuses ∷ [] }

live-refused_example :
    (s' : InProgressRequest toy) × (live toy redirect 2 true
        (new_in_progress_request toy refusing true toy_request 7 1 2 3 none)
        (run_task ∷ client_disconnected ∷ [])
      ≡ done s')
    × (s'.messages ≡ client_complete err_blocked_by_client ∷ [])
    × (s'.removed ≡ true)
unfolding new_in_progress_request make_ctx is_internal_scheme
live-refused_example =
    live-refused toy redirect 2 true refusing true toy_request 7 1 2 3 none
      (client_disconnected ∷ []) refl refl ((λ ctx. (refl, refl, refl, refl)), tt) (omega arith)
      refl refl

-- A request whose loader has started.
abbrev started : InProgressRequest toy
started = record fresh { proxied_client_receiver = bound; target_loader = true }

step-completed_example :
    (s' : InProgressRequest toy) × (step toy redirect 1 true started (completed err_failed)
      ≡ done s')
    × (s'.removed ≡ true)
    × (s'.messages ≡ client_complete err_failed ∷ [])
unfolding new_in_progress_request
step-completed_example = step-completed toy redirect 1 true started err_failed refl refl

-- Two listeners wait; the first lets the request pass, and the second asks for another URL.
abbrev waits : Listener toy
waits ctx = (err_io_pending, ctx)

abbrev two_wait : Handler toy (Continuation toy)
two_wait = record quiet { before_url_request_callbacks = waits ∷ waits ∷ [] }

-- Two listeners let every request pass.
abbrev says_ok : Listener toy
says_ok ctx = (net_ok, ctx)

abbrev easy : Handler toy (Continuation toy)
easy = record quiet { before_url_request_callbacks = says_ok ∷ says_ok ∷ [] }

live-returns_example :
    (s' : InProgressRequest toy) × (live toy redirect 4 true
        (new_in_progress_request toy easy true toy_request 7 1 2 3 none)
        (run_task ∷ receive_response response ∷ client_disconnected ∷ run_task ∷ [])
      ≡ done s')
    × IsAccounted toy s'
live-returns_example =
    live-returns toy toy-HasOneScheme redirect 4 true easy true toy_request 7 1 2 3 none
      (run_task ∷ receive_response response ∷ client_disconnected ∷ run_task ∷ [])
      ((λ ctx. (refl, refl, refl, refl)), ((λ ctx. (refl, refl, refl, refl)), tt)) (omega arith)
      refl

abbrev passes : Write toy
passes ctx = ctx

abbrev asks_for_b : Write toy
asks_for_b ctx = record ctx { new_url_spec = "http:b" }

abbrev waiting : InProgressRequest toy
waiting = new_in_progress_request toy two_wait true toy_request 7 1 2 3 none

restart_internal-answered_later_example :
    (restart_internal toy redirect 3 true waiting >>= λ s'.
    listeners_answered toy 3 (passes ∷ asks_for_b ∷ []) s')
    ≡ done (
        settled toy redirect waiting (
          answers toy
            (waits ∷ waits ∷ [])
            (passes ∷ asks_for_b ∷ [])
            (verdict toy redirect waiting)))
unfolding new_in_progress_request make_ctx is_internal_scheme
restart_internal-answered_later_example =
    restart_internal-answered_later toy redirect 3 true waiting (passes ∷ asks_for_b ∷ []) refl refl
      ((λ ctx. (refl, refl, refl, refl)), ((λ ctx. (refl, refl, refl, refl)), tt)) (omega arith)
      (refl, (λ ctx. (refl, refl, refl, refl)), (refl, (λ ctx. (refl, refl, refl, refl)), refl))

live-intercepted_example :
    (s' : InProgressRequest toy) × (((restart_internal toy redirect 3 true waiting >>= λ s''.
    listeners_answered toy 3 (passes ∷ asks_for_b ∷ []) s'')
        >>= λ s''. run toy redirect 3 true s'' (run_task ∷ []))
      ≡ done s')
    × Answered toy redirect toy_request 3
        (answers toy (waits ∷ waits ∷ []) (passes ∷ asks_for_b ∷ []) (verdict toy redirect waiting))
        s'
unfolding new_in_progress_request make_ctx is_internal_scheme
live-intercepted_example =
    live-intercepted toy redirect 3 true two_wait toy_request 7 1 2 3 none
      (passes ∷ asks_for_b ∷ []) refl refl
      ((λ ctx. (refl, refl, refl, refl)), ((λ ctx. (refl, refl, refl, refl)), tt)) (omega arith)
      (refl, (λ ctx. (refl, refl, refl, refl)), (refl, (λ ctx. (refl, refl, refl, refl)), refl))
      refl

-- The same request after it has waited, and before it is removed.
abbrev info : RequestInfo toy
info = record (new_request_info toy) { request_identifier = 7; event_type = on_before_request }

abbrev waited : InProgressRequest toy
waited = record waiting {
  ctx = some info;
  handler = record two_wait { callbacks = (7, some before_send_headers) ∷ [] };
}

listener_answered-remove_request_example :
    listener_answered toy 3 asks_for_b (remove_request toy waited)
    ≡ done (record (remove_request toy waited) { ctx = some (asks_for_b info) })
listener_answered-remove_request_example =
    listener_answered-remove_request toy 3 waited info asks_for_b refl
      (λ ctx. (refl, refl, refl, refl))
