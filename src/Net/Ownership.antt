-- ===== src/Net/Ownership.antt =====
-- `ResourceContextData` of dumb/browser/net/resource_context_data.{h,cc}: what a profile owns. The
-- sets are keyed by a proxy's address. A URL loader proxy is the factory of Net/Factory; a web
-- socket proxy is its identifier here, none before its factory has run, and what it does by itself
-- is Net/WebSocket. The profile's counter is the generator that all of them share.
pub mod Owned
pub mod Users
pub mod Changes
pub mod Identifiers
mod Tests
use dumb_browser.Base.{
  ℕ, ◌+◌, ◌==◌, ◌≡◌, ◌<◌, String, Bool, true, false, Option, none, some, List, [], ◌∷◌,
  if◌then◌else◌, is_some, Exec, done, fault, missing_entry,
}
use dumb_browser.Base.Dict.{Dict, lookup, insert, erase}
use dumb_browser.Net.Libraries.{NetLibraries, ResourceRequest}
use dumb_browser.Net.Factory.{Factory, new_factory}
use dumb_browser.Net.Factory

pub record ResourceContextData : Type 0 where
  -- whether `request_handler_` is there
  pub request_handler : Bool
  -- `request_id_generator_->id_`
  pub last_id : ℕ
  pub proxies : Dict Factory
  pub websocket_proxies : Dict (Option ℕ)

unfoldable pub new_resource_context_data : ResourceContextData
new_resource_context_data = record {
  request_handler = false;
  last_id = 0;
  proxies = [];
  websocket_proxies = [];
}

-- The profile's data and its handler, made when they are missing.
unfoldable pub get_or_create : Option ResourceContextData → ResourceContextData
unfolding new_resource_context_data
get_or_create none = record new_resource_context_data { request_handler = true }
get_or_create (some self) = record self { request_handler = true }

-- `address` is where the new proxy lies.
unfoldable pub start_proxying : ℕ → Option ResourceContextData → ResourceContextData
unfolding get_or_create
start_proxying address user_data =
    let self = get_or_create user_data in
    record self { proxies = insert address (new_factory self.last_id) self.proxies }

unfoldable pub start_proxying_web_socket : ℕ → Option ResourceContextData → ResourceContextData
unfolding get_or_create
start_proxying_web_socket address user_data =
    let self = get_or_create user_data in
    record self { websocket_proxies = insert address none self.websocket_proxies }

-- `DumbProxyingURLLoaderFactory::MaybeProxyRequest`: every request is proxied.
abbrev pub maybe_proxy_request : ℕ → Option ResourceContextData → Bool × ResourceContextData
maybe_proxy_request address user_data = (true, start_proxying address user_data)

-- `DumbProxyingWebSocket::ProxyWebSocket`
abbrev pub proxy_web_socket : ℕ → Option ResourceContextData → ResourceContextData
proxy_web_socket address user_data = start_proxying_web_socket address user_data

-- The request that a web socket proxy is made with. `blank` is a default `ResourceRequest`, and
-- `user_agent_header` is `HttpRequestHeaders::kUserAgent`.
unfoldable pub web_socket_request :
    (lib : NetLibraries)
    → ResourceRequest lib
    → String
    → lib.Url
    → lib.SiteForCookies
    → Option String
    → lib.Origin
    → ResourceRequest lib
web_socket_request lib blank user_agent_header url site_for_cookies user_agent origin =
    record blank {
      url = url;
      site_for_cookies = site_for_cookies;
      headers = elim user_agent [
        | none ↦ blank.headers
        | some agent ↦ lib.set_request_header blank.headers user_agent_header agent
      ];
      request_initiator = some origin;
    }

-- The end of a set is no entry that could be erased.
unfoldable pub remove_proxy : ℕ → ResourceContextData → Exec ResourceContextData
remove_proxy address self =
    if is_some (lookup address self.proxies)
    then done (record self { proxies = erase address self.proxies })
    else fault missing_entry

unfoldable pub remove_proxy_web_socket : ℕ → ResourceContextData → Exec ResourceContextData
remove_proxy_web_socket address self =
    if is_some (lookup address self.websocket_proxies)
    then done (record self { websocket_proxies = erase address self.websocket_proxies })
    else fault missing_entry

-- What a factory's own step, over the shared generator, leaves of it: its disconnect callback is
-- `RemoveProxy`.
unfoldable pub after_call : ℕ → Factory → ResourceContextData → Exec ResourceContextData
unfolding remove_proxy
after_call address f self =
    let self' : ResourceContextData = record self {
      last_id = f.last_id;
      proxies = insert address f self.proxies;
    } in
    if f.disconnects == 0 then done self' else remove_proxy address self'

-- `Start` of a web socket takes an identifier.
unfoldable pub number_web_socket : ℕ → ResourceContextData → ResourceContextData
number_web_socket address self = record self {
  last_id = self.last_id + 1;
  websocket_proxies = insert address (some (self.last_id + 1)) self.websocket_proxies;
}

-- One event of a profile. A new proxy lies where no proxy of the profile does.
pub data Step : Option ResourceContextData → Option ResourceContextData → Type 0 where
  starts_loader :
      (address : ℕ) (r : Option ResourceContextData)
      → lookup address (get_or_create r).proxies ≡ none
      → Step r (some (maybe_proxy_request address r).1)
  starts_web_socket :
      (address : ℕ) (r : Option ResourceContextData)
      → lookup address (get_or_create r).websocket_proxies ≡ none
      → Step r (some (proxy_web_socket address r))
  loader_acts :
      (address : ℕ) (r r' : ResourceContextData) (f f' : Factory)
      → lookup address r.proxies ≡ some f
      → Factory.Step (record f { last_id = r.last_id }) f'
      → after_call address f' r ≡ done r'
      → Step (some r) (some r')
  web_socket_runs :
      (address : ℕ) (r : ResourceContextData)
      → lookup address r.websocket_proxies ≡ some none
      → Step (some r) (some (number_web_socket address r))
  web_socket_ends :
      (address : ℕ) (r r' : ResourceContextData)
      → remove_proxy_web_socket address r ≡ done r'
      → Step (some r) (some r')

pub data Reachable : Option ResourceContextData → Type 0 where
  starts : Reachable none
  goes_on : (r r' : Option ResourceContextData) → Reachable r → Step r r' → Reachable r'
