-- ===== src/Base/Lists.antt =====
-- Lists measured and indexed by native numbers, under the library's names.
use Prim.Native.Nat.{ℕ, zero, suc, ◌+◌, ◌<◌, ◌≤◌}
use mathlib.Core.Path.{◌≡◌, refl}
use mathlib.Core.Bool.{Bool, true, false}
use mathlib.Core.List.{List, [], ◌∷◌, ◌++◌}
use mathlib.Core.Option.{Option, none, some}
use native.Mathlib.Omega.{arith}

module _ {ℓ} {A : Type ℓ} where
  abbrev pub length : List A → ℕ
  length [] = 0
  length (x ∷ xs) = suc (length xs)

  abbrev pub get_elem? : List A → ℕ → Option A
  get_elem? [] i = none
  get_elem? (x ∷ xs) zero = some x
  get_elem? (x ∷ xs) (suc i) = get_elem? xs i

  abbrev pub drop : ℕ → List A → List A
  drop zero xs = xs
  drop (suc n) [] = []
  drop (suc n) (x ∷ xs) = drop n xs

  abbrev pub is_empty : List A → Bool
  is_empty [] = true
  is_empty (x ∷ xs) = false

  pub is_empty_lem : (xs : List A) → is_empty xs ≡ true → xs ≡ []
  is_empty_lem [] e = refl
  is_empty_lem (x ∷ xs) e = cc

  abbrev pub All {κ} : (A → Type κ) → List A → Type κ
  All P [] = Unit
  All P (x ∷ xs) = P x × All P xs

  pub All-drop {κ} : (P : A → Type κ) (i : ℕ) (xs : List A) → All P xs → All P (drop i xs)
  All-drop P zero xs h = h
  All-drop P (suc i) [] h = tt
  All-drop P (suc i) (x ∷ xs) h = All-drop P i xs h.1

  pub All-append {κ} : (P : A → Type κ) (xs ys : List A) → All P xs → All P ys → All P (xs ++ ys)
  All-append P [] ys h g = g
  All-append P (x ∷ xs) ys h g = (h.0, All-append P xs ys h.1 g)

  pub length-drop : (xs : List A) (i : ℕ) → i ≤ length xs → i + length (drop i xs) ≡ length xs
  length-drop xs zero le = omega arith
  length-drop [] (suc i) le = absurd (omega arith)
  length-drop (x ∷ xs) (suc i) le = ground (arith, length-drop xs i)

  -- The entry that an index in range names is the head of what is left from there.
  pub get_elem?-drop :
      (xs : List A) (i : ℕ)
      → i < length xs
      → (x : A) × (get_elem? xs i ≡ some x) × (drop i xs ≡ x ∷ drop (suc i) xs)
  get_elem?-drop [] i h = elim h [ ]
  get_elem?-drop (x ∷ xs) zero h = (x, refl, refl)
  get_elem?-drop (x ∷ xs) (suc i) h = get_elem?-drop xs i (omega arith)

  pub drop_end : (xs : List A) (i : ℕ) → i ≡ length xs → drop i xs ≡ []
  drop_end [] zero h = refl
  drop_end [] (suc i) h = refl
  drop_end (x ∷ xs) zero h = absurd (omega arith)
  drop_end (x ∷ xs) (suc i) h = drop_end xs i (omega arith)
