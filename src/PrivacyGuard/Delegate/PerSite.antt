-- ===== src/PrivacyGuard/Delegate/PerSite.antt =====
-- `TryApplyMatcher` and the per-site loop against their description.
use dumb_browser.Base.{
  ℕ, ◌+◌, ◌≡◌, refl, ◌∙◌, sym, ap, String, true, Option, List, [], ◌∷◌, ◌++◌, pos, +ℤ-pos, arith,
}
use dumb_browser.PrivacyGuard.Libraries.{UrlLibraries}
use dumb_browser.PrivacyGuard.Matcher.{QueryMatcher}
use package.dumb_browser.PrivacyGuard.Delegate.{
  UrlPurifyDelegate, matches_url, try_apply_matcher, apply_per_site, apply_rules,
}
use package.dumb_browser.PrivacyGuard.Delegate.Spec.{
  remove_all, removals, first_not_matching, rule_regexes, active_regexes, filter_query_lem,
  remove_all-append, removals-append,
}

module _ (lib : UrlLibraries) where
  apply_per_site_lem :
      (ms : List (QueryMatcher lib)) (url : String) (c : ℕ) (q : String)
      → let res = rule_regexes lib (first_not_matching lib ms url) url in
        apply_per_site lib ms url (pos c) q ≡ (pos (c + removals lib res q), remove_all lib res q)
  unfolding apply_per_site try_apply_matcher
  apply_per_site_lem [] url c q = ground arith
  apply_per_site_lem (m ∷ ms) url c q = ground (
    arith,
    apply_per_site_lem ms url c q,
    filter_query_lem lib m.query_matchers 0 q,
    +ℤ-pos c (removals lib m.query_matchers q),
  )

  -- The purifier's two loops and its sentinel results amount to this: the global rule's regexes and
  -- those of the first rule whose pattern does not match the URL (none, if that rule meets an
  -- exception or there is no such rule) are removed in order, and every removal is counted.
  pub apply_rules-active_regexes :
      (d : UrlPurifyDelegate lib) (url q : String)
      → apply_rules lib d url q ≡ (
        pos (removals lib (active_regexes lib d url) q),
        remove_all lib (active_regexes lib d url) q,
      )
  unfolding apply_rules try_apply_matcher
  apply_rules-active_regexes d url q =
      let res = d.global_rules_matcher.query_matchers in
      let site = rule_regexes lib (first_not_matching lib d.per_site_matchers url) url in
      ground (
        arith,
        filter_query_lem lib res 0 q,
        +ℤ-pos 0 (removals lib res q),
        apply_per_site_lem d.per_site_matchers url (removals lib res q) (remove_all lib res q),
        remove_all-append lib res site q,
        removals-append lib res site q,
      )

  first_not_matching-append :
      (ms ns : List (QueryMatcher lib)) (m : QueryMatcher lib) (url : String)
      → matches_url lib m.url_matcher url ≡ true
      → first_not_matching lib (ms ++ m ∷ ns) url ≡ first_not_matching lib (ms ++ ns) url
  first_not_matching-append [] ns m url on = rw on refl
  first_not_matching-append (l ∷ ms) ns m url on =
      ground (arith, first_not_matching-append ms ns m url on)

  -- A per-site rule does not act on the sites that its pattern describes: for a URL that the
  -- pattern of one rule matches, wherever it stands among the others and whatever these are, the
  -- purifier removes and counts what it would without that rule.
  pub apply_rules-without :
      (d : UrlPurifyDelegate lib) (ms ns : List (QueryMatcher lib)) (m : QueryMatcher lib)
      (url q : String)
      → matches_url lib m.url_matcher url ≡ true
      → apply_rules lib (record d { per_site_matchers = ms ++ m ∷ ns }) url q
        ≡ apply_rules lib (record d { per_site_matchers = ms ++ ns }) url q
  apply_rules-without d ms ns m url q on =
      let act : Option (QueryMatcher lib) → List lib.Regex =
        λ o. d.global_rules_matcher.query_matchers ++ rule_regexes lib o url in
      apply_rules-active_regexes (record d { per_site_matchers = ms ++ m ∷ ns }) url q
      ∙ ap (λ o. (pos (removals lib (act o) q), remove_all lib (act o) q))
          (first_not_matching-append ms ns m url on)
      ∙ sym (apply_rules-active_regexes (record d { per_site_matchers = ms ++ ns }) url q)
