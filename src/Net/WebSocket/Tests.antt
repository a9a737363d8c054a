-- ===== src/Net/WebSocket/Tests.antt =====
-- A web socket to "ws:a" over the small network library, with and without listeners and with and
-- without a header client.
use dumb_browser.Base.{
  ◌≡◌, refl, true, false, none, some, [], ◌∷◌, if◌then◌else◌, net_ok, err_failed, err_io_pending,
  ◌>>=◌, err_blocked_by_client, done, arith,
}
use dumb_browser.Net.Libraries.{ResourceRequest}
use dumb_browser.Net.Toy.{toy}
use dumb_browser.Net.RequestInfo.{make_ctx, new_request_info}
use dumb_browser.Net.Handler.{Handler, Listener, is_internal_scheme}
use dumb_browser.Net.Handler.Resumed.{Write}
use dumb_browser.Net.Loader.{bound}
use package.dumb_browser.Net.WebSocket.{
  WebSocketProxy, Completion, new_web_socket, run_factory, ask_send_headers, answer_send_headers,
  ask_headers_received, answer_headers_received,
}
use package.dumb_browser.Net.WebSocket.Handshake.{HeaderList, set_headers}
use package.dumb_browser.Net.WebSocket.Step.{
  connection_lost, handshake_started, connected, sends_headers, send_headers_answered,
  receives_headers, headers_received_answered, run_task, run, live,
}
use package.dumb_browser.Net.WebSocket.Lives.{Ended, live-Ended}
use package.dumb_browser.Net.WebSocket.Answers.{listeners_answered}
use package.dumb_browser.Net.WebSocket.Later.{live-answered_later}
use package.dumb_browser.Net.WebSocket.Listened.{verdict, lets_pass, live-listened}
use package.dumb_browser.Net.WebSocket.Exchange.{run-sends_headers, run-receives_headers}

abbrev names : HeaderList toy
names [] = []
names (name ∷ more) = (name, "") ∷ names more

abbrev request : ResourceRequest toy
request = record {
  url = "ws:a";
  method = "GET";
  request_initiator = some "http:page";
  referrer = "";
  referrer_policy = tt;
  resource_type = tt;
  isolation_info = none;
  request_body = none;
  headers = "User-Agent" ∷ [];
  site_for_cookies = tt;
  update_first_party_url_on_redirect = false;
  is_main_frame = false;
}

abbrev no_listeners : Handler toy Completion
no_listeners = record {
  before_url_request_callbacks = [];
  headers_received_callbacks = [];
  callbacks = [];
}

abbrev refuses : Listener toy
refuses ctx = (err_blocked_by_client, ctx)

abbrev one_refuses : Handler toy Completion
one_refuses = record no_listeners { before_url_request_callbacks = refuses ∷ [] }

-- A socket with a header client, after its factory has run.
abbrev asked : WebSocketProxy toy
asked = record (new_web_socket toy no_listeners request 1 2 none 3) {
  factory = false;
  proxy_auth_handler = true;
  proxy_trusted_header_client = true;
  receiver_as_handshake_client = bound;
  receiver_as_auth_handler = true;
  receiver_as_header_client = bound;
}

-- A listener lets the socket pass; the task and then the handshake follow.
abbrev passes : Listener toy
passes ctx = (net_ok, ctx)

abbrev one_passes : Handler toy Completion
one_passes = record no_listeners { before_url_request_callbacks = passes ∷ [] }

live-Ended_example :
    (s : WebSocketProxy toy) × (live toy names 5 "ws:a" [] true true
        (new_web_socket toy one_passes request 1 2 none 3)
        (connection_lost 1 ""
          ∷ run_task
          ∷ sends_headers []
          ∷ send_headers_answered net_ok none
          ∷ handshake_started
          ∷ connected none
          ∷ [])
      ≡ done s)
    × Ended toy names true "ws:a" s
unfolding new_web_socket make_ctx new_request_info is_internal_scheme
live-Ended_example =
    live-Ended toy names 5 "ws:a" [] true one_passes request 1 2 none 3
      (connection_lost 1 ""
        ∷ run_task
        ∷ sends_headers []
        ∷ send_headers_answered net_ok none
        ∷ handshake_started
        ∷ connected none
        ∷ [])
      refl ((λ ctx. (refl, refl, refl, refl)), tt) (omega arith) refl refl

live-listened_example :
    let s = new_web_socket toy one_refuses request 1 2 none 3 in
    (s' : WebSocketProxy toy) × (live toy names 2 "ws:a" [] true false s (run_task ∷ []) ≡ done s')
    × (s'.messages ≡ (
        if lets_pass toy names (verdict toy s)
        then run_factory "ws:a" (names (set_headers toy [] ("User-Agent" ∷ []))) false ∷ []
        else []))
    × (s'.disconnects ≡ (if lets_pass toy names (verdict toy s) then 0 else 1))
unfolding new_web_socket make_ctx new_request_info is_internal_scheme
live-listened_example =
    live-listened toy names 2 "ws:a" [] true false one_refuses request 1 2 none 3 refl refl
      ((λ ctx. (refl, refl, refl, refl)), tt) (omega arith) refl refl

-- Two listeners wait, and each asks for the empty data URI when it answers.
abbrev waits : Listener toy
waits ctx = (err_io_pending, ctx)

abbrev two_wait : Handler toy Completion
two_wait = record no_listeners { before_url_request_callbacks = waits ∷ waits ∷ [] }

abbrev blocks : Write toy
blocks ctx = record ctx { new_url_spec = "data:text/plain," }

live-answered_later_example :
    let s = new_web_socket toy two_wait request 1 2 none 3 in
    (waiting ended : WebSocketProxy toy) × (live toy names 3 "ws:a" [] true true s []
      ≡ done waiting)
    × (waiting.messages ≡ [])
    × (waiting.disconnects ≡ 0)
    × ((listeners_answered toy 3 (blocks ∷ blocks ∷ []) waiting >>= λ s'.
          run toy names 3 s' (run_task ∷ []))
        ≡ done ended)
    × (ended.messages ≡ run_factory "ws:a" [] true ∷ [])
    × (ended.disconnects ≡ 0)
unfolding new_web_socket make_ctx new_request_info is_internal_scheme
live-answered_later_example =
    live-answered_later toy names 3 "ws:a" [] true true two_wait request 1 2 none 3 blocks
      (blocks ∷ []) refl refl
      ((λ ctx. (refl, refl, refl, refl)), ((λ ctx. (refl, refl, refl, refl)), tt)) (omega arith)
      (refl, (λ ctx. (refl, refl, refl, refl)), (refl, (λ ctx. (refl, refl, refl, refl)), refl))
      refl

run-sends_headers_example :
    (s' : WebSocketProxy toy) × (run toy names 5 asked
        (sends_headers ("Cookie" ∷ []) ∷ send_headers_answered net_ok (some []) ∷ [])
      ≡ done s')
    × (s'.messages ≡ ask_send_headers ("Cookie" ∷ []) ∷ answer_send_headers net_ok [] ∷ [])
    × (s'.request.headers ≡ [])
    × (s'.disconnects ≡ 0)
    × (s'.factory ≡ false)
unfolding new_web_socket
run-sends_headers_example =
    run-sends_headers toy names 5 asked ("Cookie" ∷ []) net_ok (some []) refl refl refl refl

run-receives_headers_example :
    (s' : WebSocketProxy toy) × (run toy names 5 asked
        (receives_headers "Upgrade" (some 9) ∷ headers_received_answered err_failed none none ∷ [])
      ≡ done s')
    × (s'.messages ≡ ask_headers_received "" none ∷ answer_headers_received net_ok none ∷ [])
    × (s'.receiver_as_header_client ≡ bound)
    × (s'.receiver_as_handshake_client ≡ bound)
    × (s'.response_headers ≡ some "Upgrade")
    × (s'.disconnects ≡ 0)
unfolding new_web_socket
run-receives_headers_example =
    run-receives_headers toy names 5 asked "Upgrade" (some 9) err_failed none none refl refl refl
      refl refl refl refl refl refl refl refl
