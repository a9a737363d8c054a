-- ===== src/Net/WebSocket/Lives.antt =====
-- The whole life of a web socket of dumb/browser/net/dumb_proxying_web_socket.cc, from `Start` on,
-- whatever its listeners answer at once.
use dumb_browser.Base.{
  ℕ, ◌<◌, ◌≡◌, refl, ap, String, Bool, true, false, not, Option, List, [], ◌∷◌, if◌then◌else◌,
  is_empty, is_empty_lem, length, All, Bool-cases, ◌⊎◌, inl, inr, done, Returns, Returns->>=,
  Returns-weaken, returned, ◌>>=◌, arith,
}
use dumb_browser.Net.Libraries.{NetLibraries, ResourceRequest}
use dumb_browser.Net.RequestInfo.{make_ctx, get_upload_data}
use dumb_browser.Net.Handler.{Handler, is_internal_scheme}
use dumb_browser.Net.Handler.Loop.{KeepsInfo}
use package.dumb_browser.Net.WebSocket.{WebSocketProxy, Completion, new_web_socket, remake_ctx}
use package.dumb_browser.Net.WebSocket.Handshake.{
  HeaderList, set_headers, start, web_socket_factory_run,
}
use package.dumb_browser.Net.WebSocket.Step.{Event, run, live}
use package.dumb_browser.Net.WebSocket.Alive.{factory_urls}
use package.dumb_browser.Net.WebSocket.Listened.{numbered}
use package.dumb_browser.Net.WebSocket.Total.{live-ends_once}
use package.dumb_browser.Net.WebSocket.Queued.{Anywhere, run-Anywhere}
use package.dumb_browser.Net.WebSocket.Info.{request_url-remake_ctx}
use package.dumb_browser.Net.WebSocket.Landed.{start-Anywhere}

module _ (lib : NetLibraries) (headers : HeaderList lib) where
  -- What a life ends with: how often the factory was run, and whether the proxy is deleted.
  abbrev pub Ended : Bool → lib.Url → WebSocketProxy lib → Type 0
  Ended has_listeners url s =
      ((factory_urls lib s.messages ≡ url ∷ [])
        ⊎ ((factory_urls lib s.messages ≡ []) × (has_listeners ≡ true)))
      × (s.disconnects ≡ (if s.is_done then 1 else 0))

  Anywhere-Ended :
      (url : lib.Url) (s : WebSocketProxy lib) → Anywhere lib headers url s → Ended true url s
  Anywhere-Ended url s (inl (own, q)) =
      (inr (ap (λ ms. factory_urls lib ms) q.nothing, refl), ground (arith, q.not_done, q.here))
  Anywhere-Ended url s (inr (inl (inl a))) =
      (inl a.ran, ground (arith, a.kept.not_done, a.kept.here))
  Anywhere-Ended url s (inr (inl (inr g))) = (inl g.ran, ground (arith, g.is_over, g.deleted))
  Anywhere-Ended url s (inr (inr r)) =
      (inr (ap (λ ms. factory_urls lib ms) r.nothing, refl), ground (arith, r.is_over, r.deleted))

  -- A new socket whose factory runs, with an authentication handler.
  abbrev pub prepared :
      lib.Url
      → Bool
      → Handler lib Completion
      → ResourceRequest lib
      → ℕ
      → ℕ
      → Option ℕ
      → ℕ
      → WebSocketProxy lib
  prepared url trusted h request process frame context id =
      record (new_web_socket lib h request process frame context id) {
        proxy_url = url;
        proxy_auth_handler = true;
        proxy_trusted_header_client = trusted;
      }

  prepared-Ended :
      (fuel : ℕ) (url : lib.Url) (trusted : Bool) (h : Handler lib Completion)
      (request : ResourceRequest lib) (process frame : ℕ) (context : Option ℕ) (id : ℕ)
      (es : List (Event lib))
      → let s = prepared url trusted h request process frame context id in
        is_empty h.before_url_request_callbacks ≡ false
        → is_internal_scheme lib (remake_ctx lib (numbered lib s)) ≡ false
        → All (KeepsInfo lib) h.before_url_request_callbacks
        → length h.before_url_request_callbacks < fuel
        → h.headers_received_callbacks ≡ []
        → Returns
            (Ended true request.url)
            (start lib headers fuel s >>= λ s'. run lib headers fuel s' es)
  unfolding new_web_socket is_internal_scheme
  prepared-Ended fuel url trusted h request process frame context id es some_listener external keep
        lt qh =
      let s = prepared url trusted h request process frame context id in
      let plain : lib.is_chrome_scheme request.url ≡ false =
        ground (arith, external, request_url-remake_ctx lib (numbered lib s)) in
      Returns->>= (Anywhere lib headers request.url) (Ended true request.url)
        (start lib headers fuel s) (λ s'. run lib headers fuel s' es)
        (start-Anywhere lib headers fuel s some_listener external keep lt refl (λ c. record {
          awaits = inl refl;
          has_ctx = refl;
          quiet_headers = ap (λ ls. is_empty ls) qh;
          plain = plain;
          unstarted = refl;
          forwards = refl;
          unbound_handshake = refl;
          no_auth_receiver = refl;
          unbound_headers = refl;
          has_auth = refl;
          unasked = refl;
          none_sent = refl;
          none_received = refl;
          not_done = refl;
          here = refl;
          nothing = refl;
        }))
        (λ s' g.
          Returns-weaken (Anywhere lib headers request.url) (Ended true request.url)
            (run lib headers fuel s' es) (Anywhere-Ended request.url)
            (run-Anywhere lib headers request.url fuel s' es g))

  listened-Ended :
      (fuel : ℕ) (url : lib.Url) (additional : List (String × String)) (trusted : Bool)
      (h : Handler lib Completion) (request : ResourceRequest lib) (process frame : ℕ)
      (context : Option ℕ) (id : ℕ) (es : List (Event lib))
      → is_empty h.before_url_request_callbacks ≡ false
      → is_internal_scheme lib
          (remake_ctx lib (numbered lib (new_web_socket lib h request process frame context id)))
        ≡ false
      → All (KeepsInfo lib) h.before_url_request_callbacks
      → length h.before_url_request_callbacks < fuel
      → h.headers_received_callbacks ≡ []
      → Returns (Ended true request.url) (
          live lib headers fuel url additional true trusted
            (new_web_socket lib h request process frame context id)
            es)
  unfolding live web_socket_factory_run new_web_socket make_ctx get_upload_data
  listened-Ended fuel url additional true h request process frame context id es some_listener
        external keep lt qh =
      prepared-Ended fuel url true h request process frame context id es some_listener external keep
        lt qh
  listened-Ended fuel url additional false h request process frame context id es some_listener
        external keep lt qh =
      prepared-Ended fuel url false h
        (record request { headers = set_headers lib additional request.headers }) process frame
        context id es some_listener external keep lt qh

  -- While no headers listener is registered, with listeners that leave the handler's bookkeeping
  -- alone but answer what they like, at once or never, with fuel for all of them, an authentication
  -- handler, a URL of no internal scheme and an empty text of the empty URL: a new web socket's
  -- whole life returns, without a null pointer, an unbound pipe, a missing callback, an index out of
  -- range or a second run of the factory, whatever the network service, the header client, the UI
  -- thread and the connection do. By then the factory was run once, with the request's URL, or, if
  -- there are listeners, perhaps not at all; and the proxy has told its owner to delete it exactly
  -- once if the socket is done, and never if it is not.
  pub live-Ended :
      (fuel : ℕ) (url : lib.Url) (additional : List (String × String)) (trusted : Bool)
      (h : Handler lib Completion) (request : ResourceRequest lib) (process frame : ℕ)
      (context : Option ℕ) (id : ℕ) (es : List (Event lib))
      → is_internal_scheme lib
          (remake_ctx lib (numbered lib (new_web_socket lib h request process frame context id)))
        ≡ false
      → All (KeepsInfo lib) h.before_url_request_callbacks
      → length h.before_url_request_callbacks < fuel
      → h.headers_received_callbacks ≡ []
      → lib.spec lib.empty_url ≡ ""
      → (s : WebSocketProxy lib) × (live lib headers fuel url additional true trusted
            (new_web_socket lib h request process frame context id)
            es
          ≡ done s)
        × Ended (not (is_empty h.before_url_request_callbacks)) request.url s
  unfolding new_web_socket is_internal_scheme
  live-Ended fuel url additional trusted h request process frame context id es external keep lt qh
        e =
      let plain : lib.is_chrome_scheme request.url ≡ false = ground (
        arith,
        external,
        request_url-remake_ctx lib
            (numbered lib (new_web_socket lib h request process frame context id)),
      ) in
      elim (Bool-cases (is_empty h.before_url_request_callbacks)) [
        | inl none_there ↦
            let end =
              live-ends_once lib headers fuel url additional trusted h request process frame context
                id es (is_empty_lem h.before_url_request_callbacks none_there) qh plain e in
            (end.0, end.1, (inl end.2, end.3))
        | inr some_listener ↦
            let end = returned (Ended true request.url) _ (
              listened-Ended fuel url additional trusted h request process frame context id es
                some_listener external keep lt qh) in
            (end.0, end.1, rw some_listener end.2)
      ]
