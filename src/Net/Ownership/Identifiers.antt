-- ===== src/Net/Ownership/Identifiers.antt =====
-- The shared generator of dumb/browser/net/resource_context_data.h. An identifier is the key
-- under which the request handler keeps a request's callback.
use dumb_browser.Base.{
  ℕ, ◌≤◌, ◌≡◌, sym, subst, Bool, true, Option, none, some, is_some, Bool-cases, inl, inr, done,
  arith,
}
use dumb_browser.Base.Dict.{lookup, erase}
use package.dumb_browser.Net.Ownership.{
  ResourceContextData, get_or_create, new_resource_context_data, start_proxying,
  start_proxying_web_socket, remove_proxy_web_socket, number_web_socket, Step, starts_loader,
  starts_web_socket, loader_acts, web_socket_runs, web_socket_ends, Reachable, starts, goes_on,
}
use package.dumb_browser.Net.Ownership.Owned.{
  after_call-OwnsAlive, Reachable-Held, Step-last_id, Held,
}
use package.dumb_browser.Net.Ownership.Users.{
  Owner, loader, web_socket, uses, OneUser, OnlyNew-OneUser,
}
use package.dumb_browser.Net.Ownership.Changes.{
  uses-start_proxying, uses-start_proxying_web_socket, number_web_socket-IsOldOrNew,
  uses-remove_proxy_web_socket, after_call-IsOldOrNew,
}

keeps :
    (p : Owner) (r r' : ResourceContextData)
    → r.last_id ≤ r'.last_id
    → ((q : Owner) (i : ℕ) → uses r' q i ≡ true → uses r q i ≡ true)
    → OneUser r
    → OneUser r'
keeps p r r' le h o =
    OnlyNew-OneUser p r r' (record { later = le; from = λ q i u. inl (h q i u) }) o

uses-request_handler :
    (r : ResourceContextData) (made : Bool) (q : Owner) (i : ℕ)
    → uses (record r { request_handler = made }) q i ≡ true
    → uses r q i ≡ true
uses-request_handler r made (loader b) i u = u
uses-request_handler r made (web_socket b) i u = u

last_id-start_proxying :
    (address : ℕ) (r : Option ResourceContextData)
    → (get_or_create r).last_id ≤ (start_proxying address r).last_id
unfolding start_proxying
last_id-start_proxying address r = omega arith

last_id-start_proxying_web_socket :
    (address : ℕ) (r : Option ResourceContextData)
    → (get_or_create r).last_id ≤ (start_proxying_web_socket address r).last_id
unfolding start_proxying_web_socket
last_id-start_proxying_web_socket address r = omega arith

remove_proxy_web_socket-OneUser :
    (address : ℕ) (r r' : ResourceContextData)
    → remove_proxy_web_socket address r ≡ done r'
    → OneUser r
    → OneUser r'
unfolding remove_proxy_web_socket
remove_proxy_web_socket-OneUser address r r' e o =
    elim (Bool-cases (is_some (lookup address r.websocket_proxies))) [
      | inl y ↦
          let left : ResourceContextData = record r {
            websocket_proxies = erase address r.websocket_proxies;
          } in
          let same : left ≡ r' = ground arith in
          subst OneUser {x = left} {y = r'} same (
            keeps (web_socket address) r left (omega arith) (uses-remove_proxy_web_socket address r)
              o)
      | inr n ↦ absurd (ground arith)
    ]

abbrev Known : Option ResourceContextData → Type 0
Known none = Unit
Known (some r) = OneUser r

no_requests : (q : Owner) (i : ℕ) → uses (get_or_create none) q i ≡ true → ⊥
unfolding get_or_create new_resource_context_data lookup
no_requests (loader b) i u = cc
no_requests (web_socket b) i u = cc

get_or_create-OneUser : (r : Option ResourceContextData) → Known r → OneUser (get_or_create r)
unfolding get_or_create
get_or_create-OneUser none k = record {
  one = λ p q i u v. absurd (no_requests p i u);
  given_out = λ p i u. absurd (no_requests p i u);
}
get_or_create-OneUser (some r) k =
    keeps (loader 0) r (record r { request_handler = true }) (omega arith)
      (λ q i u. uses-request_handler r true q i u) k

Step-Known : {r r' : Option ResourceContextData} → Step r r' → Held r → Known r → Known r'
unfolding number_web_socket
Step-Known (starts_loader address r fresh) h k =
    keeps (loader address) (get_or_create r) (start_proxying address r)
      (last_id-start_proxying address r) (uses-start_proxying address r) (get_or_create-OneUser r k)
Step-Known (starts_web_socket address r fresh) h k =
    keeps (web_socket address) (get_or_create r) (start_proxying_web_socket address r)
      (last_id-start_proxying_web_socket address r) (uses-start_proxying_web_socket address r)
      (get_or_create-OneUser r k)
Step-Known (loader_acts address r r' f f' e step a) h k =
    let (r'', returns, id, proxies, sockets, held) = after_call-OwnsAlive address r f f' h e step in
    let le : r.last_id ≤ r''.last_id = subst (λ n. r.last_id ≤ n) (sym id) (Step-last_id step) in
    let same : r'' ≡ r' = cc (returns, a) in
    subst OneUser same (
      OnlyNew-OneUser (loader address) r r''
        (record {
          later = le;
          from = λ q i u. after_call-IsOldOrNew address r r'' f f' q i e step id proxies sockets u;
        })
        k)
Step-Known (web_socket_runs address r e) h k =
    OnlyNew-OneUser (web_socket address) r (number_web_socket address r)
      (record { later = omega arith; from = number_web_socket-IsOldOrNew address r }) k
Step-Known (web_socket_ends address r r' e) h k = remove_proxy_web_socket-OneUser address r r' e k

Reachable-Known : {r : Option ResourceContextData} → Reachable r → Known r
Reachable-Known starts = tt
Reachable-Known (goes_on r r' before step) =
    Step-Known step (Reachable-Held before) (Reachable-Known before)

-- Whatever a profile goes through, an identifier belongs to one of its proxies at most, be it a URL
-- loader proxy with a request of that identifier or a web socket proxy, and the generator has
-- given it out.
pub Reachable-one_user :
    (r : ResourceContextData) (p q : Owner) (i : ℕ)
    → Reachable (some r)
    → uses r p i ≡ true
    → uses r q i ≡ true
    → (p ≡ q) × (i ≤ r.last_id)
Reachable-one_user r p q i reached u v =
    let k = Reachable-Known reached in (k.one p q i u v, k.given_out p i u)
