-- ===== src/PrivacyGuard/Delegate/Spec.antt =====
-- What the purifier removes, described without its loops and its sentinel results: which regexes
-- act on the query of a URL, and what a list of regexes does to a text.
use dumb_browser.Base.{
  ℕ, ◌+◌, ◌≡◌, refl, ◌∙◌, ap, String, Option, none, some, List, [], ◌∷◌, ◌++◌, pos, +ℤ-pos,
  if◌then◌else◌, arith,
}
use native.Mathlib.Nat.{add_assoc}
use dumb_browser.PrivacyGuard.Libraries.{UrlLibraries}
use dumb_browser.PrivacyGuard.Matcher.{QueryMatcher}
use package.dumb_browser.PrivacyGuard.Delegate.{
  UrlPurifyDelegate, matches_url, meets_exception, filter_query,
}

module _ (lib : UrlLibraries) where
  open lib use {global_replace}

  -- The text after each regex in turn has had its matches removed.
  abbrev pub remove_all : List lib.Regex → String → String
  remove_all [] s = s
  remove_all (re ∷ res) s = remove_all res (global_replace re s "").1

  -- How many matches are removed on the way.
  abbrev pub removals : List lib.Regex → String → ℕ
  removals [] s = 0
  removals (re ∷ res) s = (global_replace re s "").0 + removals res (global_replace re s "").1

  -- The first rule whose URL pattern does NOT match the URL.
  abbrev pub first_not_matching : List (QueryMatcher lib) → String → Option (QueryMatcher lib)
  first_not_matching [] full_url = none
  first_not_matching (m ∷ ms) full_url =
      if matches_url lib m.url_matcher full_url then first_not_matching ms full_url else some m

  abbrev pub rule_regexes : Option (QueryMatcher lib) → String → List lib.Regex
  rule_regexes none full_url = []
  rule_regexes (some m) full_url = if meets_exception lib m full_url then [] else m.query_matchers

  abbrev pub active_regexes : UrlPurifyDelegate lib → String → List lib.Regex
  active_regexes d full_url =
      d.global_rules_matcher.query_matchers
      ++ rule_regexes (first_not_matching d.per_site_matchers full_url) full_url

  pub remove_all-append :
      (xs ys : List lib.Regex) (s : String)
      → remove_all (xs ++ ys) s ≡ remove_all ys (remove_all xs s)
  remove_all-append [] ys s = refl
  remove_all-append (x ∷ xs) ys s = remove_all-append xs ys (global_replace x s "").1

  pub removals-append :
      (xs ys : List lib.Regex) (s : String)
      → removals (xs ++ ys) s ≡ removals xs s + removals ys (remove_all xs s)
  removals-append [] ys s = omega arith
  removals-append (x ∷ xs) ys s = omega (arith, removals-append xs ys (global_replace x s "").1)

  -- The loop with its accumulator computes the two.
  pub filter_query_lem :
      (res : List lib.Regex) (c : ℕ) (s : String)
      → filter_query lib res (pos c) s ≡ (pos (c + removals res s), remove_all res s)
  unfolding filter_query
  filter_query_lem [] c s = ground arith
  filter_query_lem (re ∷ res) c s =
      let n = (global_replace re s "").0 in
      let t = (global_replace re s "").1 in
      rw (+ℤ-pos c n) (
        filter_query_lem res (c + n) t
        ∙ ap (λ k. (pos k, remove_all res t)) (add_assoc c n (removals res t)))
