-- ===== src/PrivacyGuard/Delegate/Defaults.antt =====
-- The delegate that the network service starts with: the default rules of
-- dumb/components/privacy_guard/core/url_purify_default_rules.cc.
use dumb_browser.Base.{◌≡◌, ◌∙◌, String, false, pos, ◌++◌, ap}
use dumb_browser.PrivacyGuard.Libraries.{UrlLibraries}
use dumb_browser.PrivacyGuard.Matcher.{QueryMatcher, new_query_matcher}
use dumb_browser.PrivacyGuard.DefaultRules.{google, get_default_global_rules}
use package.dumb_browser.PrivacyGuard.Delegate.{
  new_url_purify_delegate, matches_url, meets_exception, apply_rules,
}
use package.dumb_browser.PrivacyGuard.Delegate.Spec.{remove_all, removals, active_regexes}
use package.dumb_browser.PrivacyGuard.Delegate.PerSite.{apply_rules-active_regexes}

module _ (lib : UrlLibraries) where
  abbrev pub google_matcher : QueryMatcher lib
  google_matcher = new_query_matcher lib google

  abbrev pub global_matcher : QueryMatcher lib
  global_matcher = new_query_matcher lib get_default_global_rules

  active_regexes-default :
      (url : String)
      → matches_url lib google_matcher.url_matcher url ≡ false
      → meets_exception lib google_matcher url ≡ false
      → active_regexes lib (new_url_purify_delegate lib) url
        ≡ global_matcher.query_matchers ++ google_matcher.query_matchers
  unfolding new_url_purify_delegate new_query_matcher
  active_regexes-default url h k = rw (h, k)

  -- With the default rules, a URL that does not match Google's pattern and meets none of Google's
  -- exceptions loses, beside what the global rule names, what the rule for Google names, and no
  -- other site's rule has a part in it.
  pub apply_rules-not_google :
      (url q : String)
      → matches_url lib google_matcher.url_matcher url ≡ false
      → meets_exception lib google_matcher url ≡ false
      → let res = global_matcher.query_matchers ++ google_matcher.query_matchers in
        apply_rules lib (new_url_purify_delegate lib) url q
        ≡ (pos (removals lib res q), remove_all lib res q)
  apply_rules-not_google url q h k =
      apply_rules-active_regexes lib (new_url_purify_delegate lib) url q
      ∙ ap (λ res. (pos (removals lib res q), remove_all lib res q))
          (active_regexes-default url h k)
