-- ===== src/Net/Ownership/Owned.antt =====
-- Which proxies a profile owns: RemoveProxy of dumb/browser/net/resource_context_data.cc together
-- with what ends a factory of dumb/browser/net/dumb_proxying_url_loader_factory.cc.
use dumb_browser.Base.{
  ℕ, ◌+◌, ◌≤◌, ◌==◌, ◌≡◌, refl, sym, ◌∙◌, ap, subst, true, false, Option, none, some, List, [], ◌∷◌,
  if◌then◌else◌, is_some, All, Bool-cases, inl, inr, done, arith,
}
use dumb_browser.Base.Dict.{
  Dict, lookup, insert, erase, lookup-insert, lookup-erase, lookup-insert_self, lookup-erase_self,
}
use dumb_browser.Net.Factory
use dumb_browser.Net.Factory.{
  new_factory, generate, create_loader_and_start, clone, maybe_remove_proxy,
  on_target_factory_error, on_proxy_binding_error, remove_request, asks, clones,
  generates_elsewhere, loses_target, loses_receiver, ends_request, contains, remove,
}
use dumb_browser.Net.Factory.Lifetime.{IsSound, is_needed, Step-IsSound, Reachable-IsSound}
use package.dumb_browser.Net.Ownership.{
  ResourceContextData, get_or_create, new_resource_context_data, start_proxying,
  start_proxying_web_socket, remove_proxy, remove_proxy_web_socket, after_call, number_web_socket,
  Step, starts_loader, starts_web_socket, loader_acts, web_socket_runs, web_socket_ends, Reachable,
  starts, goes_on,
}

last_id-maybe_remove_proxy : (f : Factory.Factory) → (maybe_remove_proxy f).last_id ≡ f.last_id
unfolding maybe_remove_proxy
last_id-maybe_remove_proxy f = ground arith

-- A factory's step never takes the generator back.
pub Step-last_id : {f f' : Factory.Factory} → Factory.Step f f' → f.last_id ≤ f'.last_id
unfolding generate create_loader_and_start clone on_target_factory_error on_proxy_binding_error
    remove_request maybe_remove_proxy
Step-last_id (asks f alive some_open) = omega arith
Step-last_id (clones f alive some_open) = omega arith
Step-last_id (generates_elsewhere f) = omega arith
Step-last_id (loses_target f alive) = ground arith
Step-last_id (loses_receiver f left alive one) = ground arith
Step-last_id (ends_request i f f' alive e) = ground arith

-- Of each proxy that is owned: it is sound, it did not run its callback, and it is not ahead.
pub record IsOwned (last_id : ℕ) (f : Factory.Factory) : Type 0 where
  pub sound : IsSound f
  pub behind : f.last_id ≤ last_id
  pub alive : f.disconnects ≡ 0

abbrev pub OwnsAlive : ResourceContextData → Type 0
OwnsAlive r =
    (r.request_handler ≡ true)
    × ((address : ℕ) (f : Factory.Factory)
        → lookup address r.proxies ≡ some f
        → IsOwned r.last_id f)

All-later : (m n : ℕ) (is : List ℕ) → m ≤ n → All (λ i. i ≤ m) is → All (λ i. i ≤ n) is
All-later m n [] le h = h
All-later m n (i ∷ is) le h = (omega (arith, h.0), All-later m n is le h.1)

IsSound-later :
    (f : Factory.Factory) (n : ℕ) → f.last_id ≤ n → IsSound f → IsSound (record f { last_id = n })
IsSound-later f n le s = record {
  receivers_bound = s.receivers_bound;
  disconnected = s.disconnected;
  generated = All-later f.last_id n f.requests le s.generated;
  distinct = s.distinct;
}

IsOwned-later : (f : Factory.Factory) (m n : ℕ) → m ≤ n → IsOwned m f → IsOwned n f
IsOwned-later f m n le o = record {
  sound = o.sound;
  behind = omega (arith, o.behind);
  alive = o.alive;
}

-- The proxies change at one address only.
at_one_address :
    (r r' : ResourceContextData) (address : ℕ)
    → r'.request_handler ≡ true
    → r.last_id ≤ r'.last_id
    → ((b : ℕ) → (address == b) ≡ false → lookup b r'.proxies ≡ lookup b r.proxies)
    → ((f : Factory.Factory) → lookup address r'.proxies ≡ some f → IsOwned r'.last_id f)
    → OwnsAlive r
    → OwnsAlive r'
at_one_address r r' address h le other own o = (
  h,
  λ b f e. elim (Bool-cases (address == b)) [
    | inl same ↦
        let same' : address ≡ b = ground arith in own f (ap (λ a. lookup a r'.proxies) same' ∙ e)
    | inr differs ↦ IsOwned-later f r.last_id r'.last_id le (o.1 b f (sym (other b differs) ∙ e))
  ],
)

new_factory-IsOwned : (n : ℕ) → IsOwned n (new_factory n)
unfolding new_factory
new_factory-IsOwned n = record {
  sound = Reachable-IsSound (new_factory n) (Factory.starts n);
  behind = omega arith;
  alive = refl;
}

inserted :
    (P : Factory.Factory → Type 0) (address : ℕ) (g : Factory.Factory) (m : Dict Factory.Factory)
    → P g
    → (f : Factory.Factory) → lookup address (insert address g m) ≡ some f
    → P f
inserted P address g m p f e =
    let same : g ≡ f = cc (lookup-insert_self address g m, e) in subst P same p

start_proxying-OwnsAlive :
    (address : ℕ) (r : Option ResourceContextData)
    → OwnsAlive (get_or_create r)
    → OwnsAlive (start_proxying address r)
unfolding start_proxying
start_proxying-OwnsAlive address r o =
    at_one_address (get_or_create r) (start_proxying address r) address o.0 (omega arith)
      (λ b d.
        lookup-insert address b (new_factory (get_or_create r).last_id) (get_or_create r).proxies
        ∙ rw d refl)
      (inserted (IsOwned (get_or_create r).last_id) address (new_factory (get_or_create r).last_id)
        (get_or_create r).proxies (new_factory-IsOwned (get_or_create r).last_id))
      o

-- A factory acts over the shared generator: its profile keeps it while it is needed, and drops it
-- with no missing entry when it is not.
pub after_call-OwnsAlive :
    (address : ℕ) (r : ResourceContextData) (f f' : Factory.Factory)
    → OwnsAlive r
    → lookup address r.proxies ≡ some f
    → Factory.Step (record f { last_id = r.last_id }) f'
    → (r' : ResourceContextData) × (after_call address f' r ≡ done r')
      × (r'.last_id ≡ f'.last_id)
      × ((b : ℕ)
          → lookup b r'.proxies ≡ (
              if address == b
              then (if is_needed f' then some f' else none)
              else lookup b r.proxies))
      × (r'.websocket_proxies ≡ r.websocket_proxies)
      × OwnsAlive r'
unfolding after_call remove_proxy
after_call-OwnsAlive address r f f' o e step =
    let later = IsSound-later f r.last_id (o.1 address f e).behind (o.1 address f e).sound in
    let s : IsSound f' = Step-IsSound step later in
    let kept : ResourceContextData = record r {
      last_id = f'.last_id;
      proxies = insert address f' r.proxies;
    } in
    elim (Bool-cases (is_needed f')) [
      | inl n ↦
          let alive : f'.disconnects ≡ 0 = s.disconnected ∙ rw n refl in
          (
            kept,
            rw alive refl,
            refl,
            (λ b. lookup-insert address b f' r.proxies ∙ rw n refl),
            refl,
            at_one_address r kept address o.0 (Step-last_id step)
                (λ b d. lookup-insert address b f' r.proxies ∙ rw d refl)
                (inserted (IsOwned f'.last_id) address f' r.proxies
                  (record { sound = s; behind = omega arith; alive = alive }))
                o,
          )
      | inr n ↦
          let dropped : ResourceContextData = record kept {
            proxies = erase address kept.proxies;
          } in
          let over : f'.disconnects ≡ 1 = s.disconnected ∙ rw n refl in
          (
            dropped,
            simp (over, lookup-insert_self address f' r.proxies) refl,
            refl,
            (λ b. ground (
              arith,
              n,
              lookup-erase address b kept.proxies,
              lookup-insert address b f' r.proxies,
            )),
            refl,
            at_one_address r dropped address o.0 (Step-last_id step)
                (λ b d.
                  lookup-erase address b kept.proxies
                  ∙ rw d (lookup-insert address b f' r.proxies ∙ rw d refl))
                (λ g h. absurd (cc (lookup-erase_self address kept.proxies, h))) o,
          )
    ]

-- A profile that has data owns what is alive.
abbrev pub Held : Option ResourceContextData → Type 0
Held none = Unit
Held (some r) = OwnsAlive r

get_or_create-OwnsAlive : (r : Option ResourceContextData) → Held r → OwnsAlive (get_or_create r)
unfolding get_or_create new_resource_context_data lookup
get_or_create-OwnsAlive none h = (refl, λ b f e. cc)
get_or_create-OwnsAlive (some r) h = (refl, h.1)

remove_proxy_web_socket-OwnsAlive :
    (address : ℕ) (r r' : ResourceContextData)
    → remove_proxy_web_socket address r ≡ done r'
    → OwnsAlive r
    → OwnsAlive r'
unfolding remove_proxy_web_socket
remove_proxy_web_socket-OwnsAlive address r r' e o =
    elim (Bool-cases (is_some (lookup address r.websocket_proxies))) [
      | inl y ↦
          let left : ResourceContextData = record r {
            websocket_proxies = erase address r.websocket_proxies;
          } in
          let same : left ≡ r' = ground arith in subst OwnsAlive {x = left} {y = r'} same o
      | inr n ↦ absurd (ground arith)
    ]

Step-Held : {r r' : Option ResourceContextData} → Step r r' → Held r → Held r'
unfolding start_proxying_web_socket number_web_socket
Step-Held (starts_loader address r fresh) h =
    start_proxying-OwnsAlive address r (get_or_create-OwnsAlive r h)
Step-Held (starts_web_socket address r fresh) h = get_or_create-OwnsAlive r h
Step-Held (loader_acts address r r' f f' e step a) h =
    let (r'', returns, id, proxies, sockets, held) = after_call-OwnsAlive address r f f' h e step in
    let same : r'' ≡ r' = cc (returns, a) in subst OwnsAlive same held
Step-Held (web_socket_runs address r e) h =
    (h.0, λ b f g. IsOwned-later f r.last_id (r.last_id + 1) (omega arith) (h.1 b f g))
Step-Held (web_socket_ends address r r' e) h = remove_proxy_web_socket-OwnsAlive address r r' e h

pub Reachable-Held : {r : Option ResourceContextData} → Reachable r → Held r
Reachable-Held starts = tt
Reachable-Held (goes_on r r' before step) = Step-Held step (Reachable-Held before)

-- Whatever a profile goes through, it has a request handler when it owns a URL loader proxy, and
-- it owns only such proxies as are needed: with a target or a request that is not over. When one of
-- them acts, the profile goes on without a missing entry, keeps that proxy as it then is exactly if
-- it is still needed, and keeps every other proxy as it was.
pub Reachable-owned :
    (r : ResourceContextData) (address : ℕ) (f f' : Factory.Factory)
    → Reachable (some r)
    → lookup address r.proxies ≡ some f
    → Factory.Step (record f { last_id = r.last_id }) f'
    → (r.request_handler ≡ true)
      × (is_needed f ≡ true)
      × (r' : ResourceContextData) × (after_call address f' r ≡ done r')
      × ((b : ℕ)
          → lookup b r'.proxies ≡ (
              if address == b
              then (if is_needed f' then some f' else none)
              else lookup b r.proxies))
      × (r'.websocket_proxies ≡ r.websocket_proxies)
Reachable-owned r address f f' reached e step =
    let held = Reachable-Held reached in
    let owned = held.1 address f e in
    let (r', returns, id, proxies, sockets, after) =
      after_call-OwnsAlive address r f f' held e step in
    (held.0, ground (arith, owned.sound.disconnected, owned.alive), r', returns, proxies, sockets)
