-- ===== src/PrivacyGuard/Delegate/Outcome.antt =====
-- What `TruncateURLParameters` returns.
use dumb_browser.Base.{
  ℕ, zero, suc, ◌+◌, ◌≤◌, ◌≡◌, refl, ◌∙◌, String, len, Bool, true, false, not, none, some, List, [],
  ◌∷◌, ℤ, pos, if◌then◌else◌, arith, All, inl, inr, ◌⊎◌, ◌&&◌, ltb, is_positive, eq_iff,
}
use dumb_browser.PrivacyGuard.Libraries.{UrlLibraries, SetsQuery, CountsReplacements, Shrinks}
use package.dumb_browser.PrivacyGuard.Delegate.{
  UrlPurifyDelegate, UrlPurifyResult, truncate_url_parameters, replace_query, unchanged,
  set_enabled,
}
use package.dumb_browser.PrivacyGuard.Delegate.Spec.{remove_all, removals, active_regexes}
use package.dumb_browser.PrivacyGuard.Delegate.PerSite.{apply_rules-active_regexes}

module _ (lib : UrlLibraries) where
  -- The regexes that act on a URL, and what they leave of its query.
  abbrev pub acting : UrlPurifyDelegate lib → lib.Url → List lib.Regex
  acting d u = active_regexes lib d (lib.spec u)

  abbrev pub purified : UrlPurifyDelegate lib → lib.Url → String
  purified d u = remove_all lib (acting d u) (lib.query u)

  abbrev pub removed : UrlPurifyDelegate lib → lib.Url → ℕ
  removed d u = removals lib (acting d u) (lib.query u)

  -- A result is either "nothing to do" or a new URL with a positive count.
  abbrev pub IsOutcome : UrlPurifyResult lib → Type 0
  IsOutcome r =
      ((r.count ≡ pos 0) × (r.new_url ≡ none))
      ⊎ ((n : ℕ) × (u : lib.Url) × (r.count ≡ pos (suc n)) × (r.new_url ≡ some u))

  build : lib.Url → ℤ × String → UrlPurifyResult lib
  build u (count, q) =
      if is_positive count
      then record { new_url = some (replace_query lib u q); count = count }
      else unchanged lib

  truncate-build :
      (d : UrlPurifyDelegate lib) (u e : lib.Url)
      → truncate_url_parameters lib d u e ≡ (
          if not d.enabled
          then unchanged lib
          else if lib.has_query u
          then build u (pos (removed d u), purified d u)
          else unchanged lib)
  unfolding truncate_url_parameters build
  truncate-build d u e = ground (arith, apply_rules-active_regexes lib d (lib.spec u) (lib.query u))

  -- What the purifier answers, on every branch: if it is enabled, the URL has a query and at least
  -- one match is removed from it, the URL with the query that is left (without a query, if nothing
  -- is left) and the number of removals; otherwise no URL and 0.
  pub truncate_url_parameters_lem :
      (d : UrlPurifyDelegate lib) (u e : lib.Url)
      → truncate_url_parameters lib d u e ≡ (
          if d.enabled && lib.has_query u && ltb 0 (removed d u)
          then record {
            new_url = some (replace_query lib u (purified d u));
            count = pos (removed d u);
          }
          else unchanged lib)
  unfolding build
  truncate_url_parameters_lem d u e = ground (arith, truncate-build d u e)

  -- A count other than 0 comes with a URL, so reading the URL after testing the count is safe, and
  -- a count is never negative.
  pub truncate_url_parameters-IsOutcome :
      (d : UrlPurifyDelegate lib) (u e : lib.Url) → IsOutcome (truncate_url_parameters lib d u e)
  unfolding build
  truncate_url_parameters-IsOutcome d u e =
      rw (truncate-build d u e)
        (build-IsOutcome d.enabled (lib.has_query u) u (removed d u) (purified d u))
    where
      build-IsOutcome :
          (on has : Bool) (u : lib.Url) (n : ℕ) (q : String)
          → IsOutcome
              (if not on then unchanged lib else if has then build u (pos n, q) else unchanged lib)
      build-IsOutcome false has u n q = inl (refl, refl)
      build-IsOutcome true false u n q = inl (refl, refl)
      build-IsOutcome true true u zero q = inl (refl, refl)
      build-IsOutcome true true u (suc n) q = inr (n, replace_query lib u q, refl, refl)

  -- Under GURL's documented setters, a new URL carries exactly what the rules leave of the query:
  -- as its query, or as no query at all if nothing is left.
  query-truncate_url_parameters :
      SetsQuery lib
      → (d : UrlPurifyDelegate lib) (u e v : lib.Url)
      → (truncate_url_parameters lib d u e).new_url ≡ some v
      → ((lib.has_query v ≡ true) × (lib.query v ≡ purified d u))
        ⊎ ((lib.has_query v ≡ false) × (purified d u ≡ ""))
  query-truncate_url_parameters laws d u e v h = ground (
    arith,
    truncate_url_parameters_lem d u e,
    eq_iff (purified d u) "",
    laws.query-set_query u (purified d u),
    laws.has_query-set_query u (purified d u),
    laws.has_query-clear_query u,
  )

  removals-Shrinks :
      (res : List lib.Regex) (s : String)
      → All (Shrinks lib) res
      → removals lib res s + len (remove_all lib res s) ≤ len s
  removals-Shrinks [] s h = omega arith
  removals-Shrinks (re ∷ res) s h =
      omega (arith, h.0 s, removals-Shrinks res (lib.global_replace re s "").1 h.1)

  -- If each acting regex has non-empty matches only, a count does not exceed the length of the
  -- query: it fits wherever the length does.
  pub truncate_url_parameters_bound :
      (d : UrlPurifyDelegate lib) (u e : lib.Url)
      → All (Shrinks lib) (acting d u)
      → (n : ℕ) → (truncate_url_parameters lib d u e).count ≡ pos n
      → n ≤ len (lib.query u)
  truncate_url_parameters_bound d u e h n c =
      ground
        (arith, truncate_url_parameters_lem d u e, removals-Shrinks (acting d u) (lib.query u) h)

  remove_all-none :
      CountsReplacements lib
      → (res : List lib.Regex) (s : String) → removals lib res s ≡ 0
      → remove_all lib res s ≡ s
  remove_all-none laws [] s h = refl
  remove_all-none laws (re ∷ res) s h =
      remove_all-none laws res (lib.global_replace re s "").1 (omega arith)
      ∙ laws.none_replaced re s "" (omega arith)

  -- No edit is lost: as RE2 documents its count, when an enabled purifier answers 0 for a URL with
  -- a query, its rules leave that query as it is.
  pub truncate_url_parameters_untouched :
      CountsReplacements lib
      → (d : UrlPurifyDelegate lib) (u e : lib.Url) → d.enabled ≡ true
      → lib.has_query u ≡ true
      → (truncate_url_parameters lib d u e).count ≡ pos 0
      → purified d u ≡ lib.query u
  truncate_url_parameters_untouched laws d u e on has c =
      remove_all-none laws (acting d u) (lib.query u)
        (ground (arith, truncate_url_parameters_lem d u e))

  -- Disabling turns every answer into "nothing to do"; enabling again restores each answer.
  truncate_url_parameters-set_enabled :
      (d : UrlPurifyDelegate lib) (u e : lib.Url)
      → (truncate_url_parameters lib (set_enabled lib d false) u e ≡ unchanged lib)
        × (truncate_url_parameters lib (set_enabled lib (set_enabled lib d false) d.enabled) u e
            ≡ truncate_url_parameters lib d u e)
  unfolding set_enabled truncate_url_parameters
  truncate_url_parameters-set_enabled d u e = (refl, refl)
