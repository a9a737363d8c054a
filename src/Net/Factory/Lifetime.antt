-- ===== src/Net/Factory/Lifetime.antt =====
-- How long a factory lives, and what its requests are called.
use dumb_browser.Base.{
  ℕ, ◌+◌, ◌≤◌, ◌≡◌, ◌≢◌, refl, subst, Bool, true, false, not, ◌||◌, List, [], ◌∷◌, if◌then◌else◌,
  is_empty, ◌==◌, All, Bool-cases, inl, inr, done, arith, ◌↔◌,
}
use package.dumb_browser.Net.Factory.{
  Factory, contains, remove, new_factory, maybe_remove_proxy, generate, create_loader_and_start,
  clone, on_target_factory_error, on_proxy_binding_error, remove_request, Step, asks, clones,
  generates_elsewhere, loses_target, loses_receiver, ends_request, Reachable, starts, goes_on,
}

-- No two are the same.
abbrev pub Distinct : List ℕ → Type 0
Distinct [] = Unit
Distinct (i ∷ is) = All (λ j. j ≢ i) is × Distinct is

abbrev pub is_needed : Factory → Bool
is_needed f = f.target_factory || not (is_empty f.requests)

-- Whatever has receivers has a target; the callback has run once if the factory is not needed, and
-- else not at all; the requests have identifiers of their own that were generated.
pub record IsSound (f : Factory) : Type 0 where
  pub receivers_bound : f.target_factory ≡ false → f.proxy_receivers ≡ 0
  pub disconnected : f.disconnects ≡ (if is_needed f then 0 else 1)
  pub generated : All (λ i. i ≤ f.last_id) f.requests
  pub distinct : Distinct f.requests

All-remove {κ} : (P : ℕ → Type κ) (i : ℕ) (js : List ℕ) → All P js → All P (remove i js)
All-remove P i [] h = h
All-remove P i (j ∷ js) h = elim (Bool-cases (j == i)) [
  | inl e ↦ rw e (All-remove P i js h.1)
  | inr e ↦ rw e (h.0, All-remove P i js h.1)
]

Distinct-remove : (i : ℕ) (js : List ℕ) → Distinct js → Distinct (remove i js)
Distinct-remove i [] h = h
Distinct-remove i (j ∷ js) h = elim (Bool-cases (j == i)) [
  | inl e ↦ rw e (Distinct-remove i js h.1)
  | inr e ↦ rw e (All-remove (λ k. k ≢ j) i js h.0, Distinct-remove i js h.1)
]

All-weaken : (m : ℕ) (is : List ℕ) → All (λ i. i ≤ m) is → All (λ i. i ≤ m + 1) is
All-weaken m [] h = h
All-weaken m (i ∷ is) h = (omega (arith, h.0), All-weaken m is h.1)

All-fresh : (m : ℕ) (is : List ℕ) → All (λ i. i ≤ m) is → All (λ i. i ≢ m + 1) is
All-fresh m [] h = h
All-fresh m (i ∷ is) h = ((λ e. absurd (omega (arith, h.0, e))), All-fresh m is h.1)

maybe_remove_proxy-IsSound :
    (f : Factory)
    → (f.target_factory ≡ false → f.proxy_receivers ≡ 0)
    → f.disconnects ≡ 0
    → All (λ i. i ≤ f.last_id) f.requests
    → Distinct f.requests
    → IsSound (maybe_remove_proxy f)
unfolding maybe_remove_proxy
maybe_remove_proxy-IsSound f r d g k = elim (Bool-cases (is_needed f)) [
  | inl e ↦
      rw e
        (record { receivers_bound = r; disconnected = ground arith; generated = g; distinct = k })
  | inr e ↦
      rw e
        (record { receivers_bound = r; disconnected = ground arith; generated = g; distinct = k })
]

pub Step-IsSound : {f f' : Factory} → Step f f' → IsSound f → IsSound f'
unfolding generate create_loader_and_start clone on_target_factory_error on_proxy_binding_error
    remove_request
Step-IsSound (asks f alive some_open) s = record {
  receivers_bound = s.receivers_bound;
  disconnected = ground (arith, s.receivers_bound, s.disconnected);
  generated = (omega arith, All-weaken f.last_id f.requests s.generated);
  distinct = (All-fresh f.last_id f.requests s.generated, s.distinct);
}
Step-IsSound (clones f alive some_open) s = record {
  receivers_bound = λ e. ground (arith, s.receivers_bound e);
  disconnected = s.disconnected;
  generated = s.generated;
  distinct = s.distinct;
}
Step-IsSound (generates_elsewhere f) s = record {
  receivers_bound = s.receivers_bound;
  disconnected = s.disconnected;
  generated = All-weaken f.last_id f.requests s.generated;
  distinct = s.distinct;
}
Step-IsSound (loses_target f alive) s =
    maybe_remove_proxy-IsSound (record f { target_factory = false; proxy_receivers = 0 })
      (λ e. refl) alive s.generated s.distinct
Step-IsSound (loses_receiver f left alive one) s = elim (Bool-cases (left == 0)) [
  | inl e ↦ rw e (
      maybe_remove_proxy-IsSound (record f { target_factory = false; proxy_receivers = left })
        (λ h. ground arith) alive s.generated s.distinct)
  | inr e ↦ rw e (
      maybe_remove_proxy-IsSound (record f { proxy_receivers = left })
        (λ h. ground (arith, s.receivers_bound h)) alive s.generated s.distinct)
]
Step-IsSound (ends_request i f f' alive e) s = elim (Bool-cases (contains i f.requests)) [
  | inl h ↦
      subst IsSound {x = maybe_remove_proxy (record f { requests = remove i f.requests })} {y = f'}
        (ground arith)
        (maybe_remove_proxy-IsSound (record f { requests = remove i f.requests }) s.receivers_bound
          alive (All-remove (λ j. j ≤ f.last_id) i f.requests s.generated)
          (Distinct-remove i f.requests s.distinct))
  | inr h ↦ absurd (ground arith)
]

pub Reachable-IsSound : (f : Factory) → Reachable f → IsSound f
unfolding new_factory
Reachable-IsSound _ (starts last_id) = record {
  receivers_bound = λ h. cc;
  disconnected = refl;
  generated = tt;
  distinct = tt;
}
Reachable-IsSound _ (goes_on f f' before step) = Step-IsSound step (Reachable-IsSound f before)

-- A factory runs the callback that deletes it exactly when nothing needs it: its target is lost and
-- none of its requests is left; and it runs it once. Its requests never share an identifier, and
-- each of them is one that the generator has given out.
pub Reachable-lifetime :
    (f : Factory)
    → Reachable f
    → ((f.disconnects ≡ 1) ↔ ((f.target_factory ≡ false) × (is_empty f.requests ≡ true)))
      × (f.disconnects ≤ 1)
      × Distinct f.requests
      × All (λ i. i ≤ f.last_id) f.requests
Reachable-lifetime f reached =
    let s = Reachable-IsSound f reached in
    (
      (λ h. ground (arith, s.disconnected), λ h. ground (arith, s.disconnected)),
      ground (arith, s.disconnected),
      s.distinct,
      s.generated,
    )

contains-remove : (i : ℕ) (js : List ℕ) → contains i (remove i js) ≡ false
contains-remove i [] = refl
contains-remove i (j ∷ js) = ground (arith, contains-remove i js)

-- A request that the factory has can be removed: it returns, and the request is gone.
remove_request_lem :
    (i : ℕ) (f : Factory)
    → contains i f.requests ≡ true
    → (f' : Factory) × (remove_request i f ≡ done f') × (contains i f'.requests ≡ false)
unfolding remove_request maybe_remove_proxy
remove_request_lem i f h = (
  maybe_remove_proxy (record f { requests = remove i f.requests }),
  ground arith,
  ground (arith, contains-remove i f.requests),
)
