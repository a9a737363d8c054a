-- ===== src/PrivacyGuard/Rule.antt =====
-- dumb/components/privacy_guard/core/url_purify_rule.{h,cc} and url_purify_rule_parser.{h,cc}
use dumb_browser.Base.{String, Option, none, List}

pub record UrlPurifyRule : Type 0 where
  pub name : String
  pub url_pattern : String
  pub query_patterns : List String
  pub url_exceptions : Option (List String)

pub record UrlPurifyRuleSet : Type 0 where
  pub global_rule : UrlPurifyRule
  pub per_site_rules : Option (List UrlPurifyRule)

-- `ParseRules` is not written yet in the source: it answers nullopt to every text.
unfoldable pub parse_rules : String → Option UrlPurifyRuleSet
parse_rules rule_string = none
