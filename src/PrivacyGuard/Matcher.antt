-- ===== src/PrivacyGuard/Matcher.antt =====
-- `QueryMatcher` of dumb/services/network/privacy_guard/url_purify_delegate.{h,cc}: a rule with its
-- patterns compiled. The DCHECKs that a pattern compiles have no effect in a release build.
use dumb_browser.Base.{String, ◌<>◌, false, Option, List, [], ◌∷◌}
use dumb_browser.PrivacyGuard.Libraries.{UrlLibraries}
use dumb_browser.PrivacyGuard.Rule.{UrlPurifyRule}
use mathlib.Core.Option

pub record QueryMatcher (lib : UrlLibraries) : Type 0 where
  pub name : String
  pub url_matcher : lib.Regex
  pub url_exception_matcher : Option lib.Regex
  pub query_matchers : List lib.Regex

module _ (lib : UrlLibraries) where
  open lib use {compile, join_string}

  -- Options: not case sensitive.
  abbrev pub compile_pattern : String → lib.Regex
  compile_pattern = compile false

  -- The three forms in which a parameter can stand in a query: alone, first, and behind another.
  abbrev pub build_query_matchers : String → List lib.Regex
  build_query_matchers query_pattern =
      compile_pattern ("^(" <> query_pattern <> ")=[^&]+$")
      ∷ compile_pattern ("^(" <> query_pattern <> ")=[^&]+&")
      ∷ compile_pattern ("&(" <> query_pattern <> ")=[^&]+")
      ∷ []

  unfoldable pub new_query_matcher : UrlPurifyRule → QueryMatcher lib
  new_query_matcher rule = record {
    name = rule.name;
    url_matcher = compile_pattern rule.url_pattern;
    url_exception_matcher =
        Option.map (λ es. compile_pattern (join_string es "|")) rule.url_exceptions;
    query_matchers = build_query_matchers (join_string rule.query_patterns "|");
  }
