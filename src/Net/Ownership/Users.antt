-- ===== src/Net/Ownership/Users.antt =====
-- Which of a profile's proxies uses an identifier of the generator of
-- dumb/browser/net/resource_context_data.h, and how that may change.
use dumb_browser.Base.{
  ℕ, ◌≤◌, ◌<◌, ◌==◌, ◌≡◌, sym, ◌∙◌, Bool, true, false, Option, none, some, ◌⊎◌, inl, inr, arith,
}
use dumb_browser.Base.Dict.{lookup}
use dumb_browser.Net.Factory
use dumb_browser.Net.Factory.{
  new_factory, generate, create_loader_and_start, clone, maybe_remove_proxy,
  on_target_factory_error, on_proxy_binding_error, remove_request, asks, clones,
  generates_elsewhere, loses_target, loses_receiver, ends_request, contains, remove,
}
use package.dumb_browser.Net.Ownership.{ResourceContextData}

-- A proxy of a profile, by its address.
pub data Owner : Type 0 where
  loader web_socket : ℕ → Owner

abbrev pub has_request : Option Factory.Factory → ℕ → Bool
has_request none i = false
has_request (some f) i = contains i f.requests

abbrev pub is_numbered : Option (Option ℕ) → ℕ → Bool
is_numbered none i = false
is_numbered (some none) i = false
is_numbered (some (some j)) i = j == i

-- Whether a proxy has a request with the identifier.
abbrev pub uses : ResourceContextData → Owner → ℕ → Bool
uses r (loader address) i = has_request (lookup address r.proxies) i
uses r (web_socket address) i = is_numbered (lookup address r.websocket_proxies) i

pub record OneUser (r : ResourceContextData) : Type 0 where
  pub one : (p q : Owner) (i : ℕ) → uses r p i ≡ true → uses r q i ≡ true → p ≡ q
  pub given_out : (p : Owner) (i : ℕ) → uses r p i ≡ true → i ≤ r.last_id

-- Nothing but the owner `p` has new requests, and only with new identifiers.
abbrev pub IsOldOrNew : Owner → ResourceContextData → ResourceContextData → Owner → ℕ → Type 0
IsOldOrNew p r r' q i = (uses r q i ≡ true) ⊎ ((q ≡ p) × (r.last_id < i) × (i ≤ r'.last_id))

pub record OnlyNew (p : Owner) (r r' : ResourceContextData) : Type 0 where
  pub later : r.last_id ≤ r'.last_id
  pub from : (q : Owner) (i : ℕ) → uses r' q i ≡ true → IsOldOrNew p r r' q i

pub OnlyNew-OneUser :
    (p : Owner) (r r' : ResourceContextData) → OnlyNew p r r' → OneUser r → OneUser r'
OnlyNew-OneUser p r r' n o = record {
  one = λ q₁ q₂ i u₁ u₂. elim (n.from q₁ i u₁) [
    | inl old₁ ↦ elim (n.from q₂ i u₂) [
      | inl old₂ ↦ o.one q₁ q₂ i old₁ old₂
      | inr (is, above, below) ↦ absurd (omega (arith, o.given_out q₁ i old₁, above))
    ]
    | inr (is₁, above₁, below₁) ↦ elim (n.from q₂ i u₂) [
      | inl old₂ ↦ absurd (omega (arith, o.given_out q₂ i old₂, above₁))
      | inr (is₂, above₂, below₂) ↦ is₁ ∙ sym is₂
    ]
  ];
  given_out = λ q i u. elim (n.from q i u) [
    | inl old ↦ omega (arith, o.given_out q i old, n.later)
    | inr (is, above, below) ↦ below
  ];
}
