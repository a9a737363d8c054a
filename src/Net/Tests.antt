-- ===== src/Net/Tests.antt =====
-- Infos and the request handler over the small network library.
use text.Mathlib.TextEquality.{eq_iff}
use dumb_browser.Base.{
  ℕ, ◌≡◌, refl, String, Bool, true, false, not, ◌&&◌, none, some, [], ◌∷◌, if◌then◌else◌, str_eq,
  net_ok, err_io_pending, done, fault, null_callback, arith,
}
use dumb_browser.Net.Libraries.{bytes, other_element, ResourceRequest, RemovesHeaders}
use dumb_browser.Net.Toy.{toy, toy_request}
use dumb_browser.Net.RequestInfo.{RequestInfo, new_request_info, on_before_request}
use dumb_browser.Net.SecurityHeaders.{remove_trackable_security_headers_for_third_party}
use dumb_browser.Net.SecurityHeaders.ThirdParty.{
  identifying_headers, is_named, remove_trackable-third_party,
}
use dumb_browser.Base.Dict.{lookup}
use dumb_browser.Net.Handler.{
  Listener, Handler, is_internal_scheme, run_listeners, run_next_callback, on_before_url_request,
  on_headers_received,
}
use dumb_browser.Net.Handler.Loop.{KeepsInfo, first_stop, run_listeners-first_stop}
use dumb_browser.Net.Handler.Completion.{settle, run_next_callback-settle}
use dumb_browser.Net.Handler.Resumed.{Waits}
use dumb_browser.Net.Handler.Twice.{outcome, run_next_callback_twice}
use dumb_browser.Net.Handler.Entry.{registered, on_before_url_request_lem, on_headers_received_lem}

abbrev has : String → String → Bool
has h m = str_eq h m && not (str_eq m "")

toy-RemovesHeaders : RemovesHeaders toy has str_eq
toy-RemovesHeaders = record {
  has-remove_header =
      λ h n m. ground (arith, eq_iff h n, eq_iff n m, eq_iff h m, eq_iff "" m, eq_iff m "");
  has-copy = λ h m. refl;
  same_name_refl = λ n. (eq_iff n n).1 refl;
}

remove_trackable-third_party_example :
    (h' : String) × (remove_trackable_security_headers_for_third_party toy "http:a" "http:b"
        (some "Expect-CT")
        none
      ≡ some h')
    × ((m : String)
        → has h' m ≡ (if is_named str_eq identifying_headers m then false else has "Expect-CT" m))
remove_trackable-third_party_example =
    remove_trackable-third_party toy has str_eq toy-RemovesHeaders "http:a" "http:b"
      (some "Expect-CT") none "Expect-CT" refl refl

-- A listener that sends every request to `http:b`.
abbrev sends_to_b : Listener toy
sends_to_b ctx = (net_ok, record ctx { new_url_spec = "http:b" })

sends_to_b-KeepsInfo : KeepsInfo toy sends_to_b
sends_to_b-KeepsInfo ctx = (refl, refl, refl, refl)

abbrev ready_info : RequestInfo toy
ready_info = record (new_request_info toy) {
  request_identifier = 7;
  request_url = "http:a";
  event_type = on_before_request;
  has_new_url = true;
}

-- The callbacks are numbers here.
abbrev handler : Handler toy ℕ
handler = record {
  before_url_request_callbacks = sends_to_b ∷ [];
  headers_received_callbacks = [];
  callbacks = (7, some 70) ∷ (8, some 80) ∷ [];
}

run_listeners-first_stop_example :
    run_listeners toy 2 (sends_to_b ∷ []) ready_info
    ≡ done (first_stop toy (sends_to_b ∷ []) ready_info)
unfolding new_request_info
run_listeners-first_stop_example =
    run_listeners-first_stop toy 2 (sends_to_b ∷ []) ready_info (sends_to_b-KeepsInfo, tt)
      (omega arith) (omega arith)

run_next_callback-settle_example :
    run_next_callback toy 2 handler ready_info
    ≡ done (settle toy handler 70 (first_stop toy (sends_to_b ∷ []) ready_info))
unfolding new_request_info lookup
run_next_callback-settle_example =
    run_next_callback-settle toy 2 handler ready_info 70 (sends_to_b-KeepsInfo, tt) refl refl refl
      (omega arith) (omega arith)

-- A listener that has been asked already answers after the request is settled.
abbrev asked_info : RequestInfo toy
asked_info = record ready_info { next_url_request_index = 1 }

ready_info-Waits : Waits toy handler 70 ready_info
unfolding lookup new_request_info
ready_info-Waits = record {
  registered_callback = refl;
  in_first_phase = refl;
  may_redirect = refl;
  in_range = omega arith;
}

asked_info-Waits : Waits toy handler 70 asked_info
unfolding lookup new_request_info
asked_info-Waits = record {
  registered_callback = refl;
  in_first_phase = refl;
  may_redirect = refl;
  in_range = omega arith;
}

run_next_callback_twice_example :
    (run_next_callback toy 2 handler ready_info
      ≡ done (settle toy handler 70 (outcome toy handler ready_info)))
    × (run_next_callback toy 2
          (settle toy handler 70 (outcome toy handler ready_info)).handler
          asked_info
        ≡ fault null_callback)
unfolding new_request_info
run_next_callback_twice_example =
    run_next_callback_twice toy 2 handler 70 ready_info asked_info (sends_to_b-KeepsInfo, tt)
      (omega arith) ready_info-Waits asked_info-Waits refl refl refl

on_before_url_request_lem_example :
    on_before_url_request toy 2 handler ready_info 71
    ≡ done (
      err_io_pending,
      settle toy
          (registered toy handler ready_info 71)
          71
          (first_stop toy (sends_to_b ∷ []) ready_info),
    )
unfolding new_request_info is_internal_scheme
on_before_url_request_lem_example =
    on_before_url_request_lem toy 2 handler ready_info 71 (sends_to_b-KeepsInfo, tt) refl
      (omega arith)

on_headers_received_lem_example :
    on_headers_received toy 2 handler ready_info 71 (some "Expect-CT") none
    ≡ done (net_ok, none, record { handler = handler; ctx = ready_info; effects = [] })
unfolding new_request_info
on_headers_received_lem_example =
    on_headers_received_lem toy 2 handler ready_info 71 (some "Expect-CT") none

-- A form is sent: bytes around a file.
abbrev form : ResourceRequest toy
form = record toy_request {
  request_body = some (bytes (1 ∷ 2 ∷ []) ∷ other_element ∷ bytes (3 ∷ []) ∷ []);
}
