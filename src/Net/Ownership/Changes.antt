-- ===== src/Net/Ownership/Changes.antt =====
-- What the operations of dumb/browser/net/resource_context_data.cc, and the steps of a factory,
-- do to the identifiers in use.
use dumb_browser.Base.{
  ℕ, ◌+◌, ◌≤◌, ◌<◌, ◌==◌, ◌≡◌, refl, sym, ◌∙◌, ap, subst, true, Option, none, some, List, [], ◌∷◌,
  if◌then◌else◌, ◌⊎◌, Bool-cases, inl, inr, arith,
}
use dumb_browser.Base.Dict.{lookup, erase, lookup-insert, lookup-erase}
use dumb_browser.Net.Factory
use dumb_browser.Net.Factory.{
  new_factory, generate, create_loader_and_start, clone, maybe_remove_proxy,
  on_target_factory_error, on_proxy_binding_error, remove_request, asks, clones,
  generates_elsewhere, loses_target, loses_receiver, ends_request, contains, remove,
}
use dumb_browser.Net.Factory.Lifetime.{is_needed}
use package.dumb_browser.Net.Ownership.{
  ResourceContextData, get_or_create, start_proxying, start_proxying_web_socket, number_web_socket,
}
use package.dumb_browser.Net.Ownership.Users.{
  Owner, loader, web_socket, has_request, is_numbered, uses, IsOldOrNew,
}

contains-remove_weaken :
    (i j : ℕ) (js : List ℕ) → contains i (remove j js) ≡ true → contains i js ≡ true
contains-remove_weaken i j [] h = h
contains-remove_weaken i j (k ∷ js) h = ground (arith, contains-remove_weaken i j js)

-- A factory's step brings in no request but with an identifier that the generator gave out in it.
Step-requests :
    {f f' : Factory.Factory}
    → Factory.Step f f'
    → (i : ℕ) → contains i f'.requests ≡ true
    → (contains i f.requests ≡ true) ⊎ ((f.last_id < i) × (i ≤ f'.last_id))
unfolding generate create_loader_and_start clone on_target_factory_error on_proxy_binding_error
    remove_request maybe_remove_proxy
Step-requests (asks f alive some_open) i h = elim (Bool-cases (f.last_id + 1 == i)) [
  | inl e ↦ inr (ground arith, ground arith)
  | inr e ↦ inl (ground arith)
]
Step-requests (clones f alive some_open) i h = inl h
Step-requests (generates_elsewhere f) i h = inl h
Step-requests (loses_target f alive) i h = inl (ground arith)
Step-requests (loses_receiver f left alive one) i h = inl (ground arith)
Step-requests (ends_request j f f' alive e) i h =
    inl (ground (arith, contains-remove_weaken i j f.requests))

-- What a proxy uses is what its address holds.
uses_at :
    (r : ResourceContextData) (b i : ℕ) (found : Option Factory.Factory)
    → lookup b r.proxies ≡ found
    → uses r (loader b) i ≡ true
    → has_request found i ≡ true
uses_at r b i found e u = sym (ap (λ l. has_request l i) e) ∙ u

web_socket_uses_at :
    (r : ResourceContextData) (b i : ℕ) (found : Option (Option ℕ))
    → lookup b r.websocket_proxies ≡ found
    → uses r (web_socket b) i ≡ true
    → is_numbered found i ≡ true
web_socket_uses_at r b i found e u = sym (ap (λ l. is_numbered l i) e) ∙ u

pub uses-start_proxying :
    (address : ℕ) (r : Option ResourceContextData) (q : Owner) (i : ℕ)
    → uses (start_proxying address r) q i ≡ true
    → uses (get_or_create r) q i ≡ true
unfolding start_proxying new_factory
uses-start_proxying address r (web_socket b) i u = u
uses-start_proxying address r (loader b) i u =
    let self = get_or_create r in
    let found = lookup-insert address b (new_factory self.last_id) self.proxies in
    elim (Bool-cases (address == b)) [
      | inl e ↦
          let has : has_request (some (new_factory self.last_id)) i ≡ true =
            uses_at (start_proxying address r) b i (some (new_factory self.last_id))
              (found ∙ rw e refl) u in
          absurd (cc has)
      | inr d ↦ uses_at (start_proxying address r) b i (lookup b self.proxies) (found ∙ rw d refl) u
    ]

pub uses-start_proxying_web_socket :
    (address : ℕ) (r : Option ResourceContextData) (q : Owner) (i : ℕ)
    → uses (start_proxying_web_socket address r) q i ≡ true
    → uses (get_or_create r) q i ≡ true
unfolding start_proxying_web_socket
uses-start_proxying_web_socket address r (loader b) i u = u
uses-start_proxying_web_socket address r (web_socket b) i u =
    let self = get_or_create r in
    let found = lookup-insert {V = Option ℕ} address b none self.websocket_proxies in
    elim (Bool-cases (address == b)) [
      | inl e ↦
          let has : is_numbered (some none) i ≡ true =
            web_socket_uses_at (start_proxying_web_socket address r) b i (some none)
              (found ∙ rw e refl) u in
          absurd (cc has)
      | inr d ↦
          web_socket_uses_at (start_proxying_web_socket address r) b i
            (lookup b self.websocket_proxies) (found ∙ rw d refl) u
    ]

pub number_web_socket-IsOldOrNew :
    (address : ℕ) (r : ResourceContextData) (q : Owner) (i : ℕ)
    → uses (number_web_socket address r) q i ≡ true
    → IsOldOrNew (web_socket address) r (number_web_socket address r) q i
unfolding number_web_socket
number_web_socket-IsOldOrNew address r (loader b) i u = inl u
number_web_socket-IsOldOrNew address r (web_socket b) i u =
    let found = lookup-insert address b (some (r.last_id + 1)) r.websocket_proxies in
    elim (Bool-cases (address == b)) [
      | inl e ↦
          let here : b ≡ address = ground arith in
          let is : (r.last_id + 1 == i) ≡ true =
            web_socket_uses_at (number_web_socket address r) b i (some (some (r.last_id + 1)))
              (found ∙ rw e refl) u in
          inr (ap (λ a. web_socket a) here, ground arith, ground arith)
      | inr d ↦ inl (
          web_socket_uses_at (number_web_socket address r) b i (lookup b r.websocket_proxies)
            (found ∙ rw d refl) u)
    ]

pub uses-remove_proxy_web_socket :
    (address : ℕ) (r : ResourceContextData) (q : Owner) (i : ℕ)
    → uses (record r { websocket_proxies = erase address r.websocket_proxies }) q i ≡ true
    → uses r q i ≡ true
uses-remove_proxy_web_socket address r (loader b) i u = u
uses-remove_proxy_web_socket address r (web_socket b) i u =
    let found = lookup-erase address b r.websocket_proxies in
    let left : ResourceContextData = record r {
      websocket_proxies = erase address r.websocket_proxies;
    } in
    elim (Bool-cases (address == b)) [
      | inl e ↦
          let has : is_numbered none i ≡ true =
            web_socket_uses_at left b i none (found ∙ rw e refl) u in
          absurd (cc has)
      | inr d ↦ web_socket_uses_at left b i (lookup b r.websocket_proxies) (found ∙ rw d refl) u
    ]

-- `r'` is the profile after the factory `f` at the address became `f'`.
pub after_call-IsOldOrNew :
    (address : ℕ) (r r' : ResourceContextData) (f f' : Factory.Factory) (q : Owner) (i : ℕ)
    → lookup address r.proxies ≡ some f
    → Factory.Step (record f { last_id = r.last_id }) f'
    → r'.last_id ≡ f'.last_id
    → ((b : ℕ)
        → lookup b r'.proxies
          ≡ (if address == b then (if is_needed f' then some f' else none) else lookup b r.proxies))
    → r'.websocket_proxies ≡ r.websocket_proxies
    → uses r' q i ≡ true
    → IsOldOrNew (loader address) r r' q i
after_call-IsOldOrNew address r r' f f' (web_socket b) i e step id found same u =
    inl (web_socket_uses_at r' b i (lookup b r.websocket_proxies) (ap (λ m. lookup b m) same) u)
after_call-IsOldOrNew address r r' f f' (loader b) i e step id found same u =
    elim (Bool-cases (address == b)) [
      | inr d ↦ inl (uses_at r' b i (lookup b r.proxies) (found b ∙ rw d refl) u)
      | inl d ↦ elim (Bool-cases (is_needed f')) [
        | inr n ↦
            let has : has_request none i ≡ true =
              uses_at r' b i none (found b ∙ rw (d, n) refl) u in
            absurd (cc has)
        | inl n ↦
            let here : b ≡ address = ground arith in
            let has : contains i f'.requests ≡ true =
              uses_at r' b i (some f') (found b ∙ rw (d, n) refl) u in
            elim (Step-requests step i has) [
              | inl old ↦
                  inl (ap (λ l. has_request l i) (ap (λ a. lookup a r.proxies) here ∙ e) ∙ old)
              | inr (above, below) ↦
                  inr (ap (λ a. loader a) here, above, subst (λ n. i ≤ n) (sym id) below)
            ]
      ]
    ]
