-- ===== src/PrivacyGuard/Delegate.antt =====
-- `URLPurifyDelegate` of dumb/services/network/privacy_guard/url_purify_delegate.{h,cc}. Logging
-- (VLOG) is left out. `int` counts are integers without a bound: a count is at most the query's
-- length, which GURL keeps far below 2^31.
pub mod Spec
pub mod Outcome
pub mod PerSite
pub mod Defaults
use dumb_browser.Base.{
  ℕ, zero, suc, ◌+◌, ◌%◌, ◌^◌, ◌-◌, String, len, Bool, true, false, not, ◌&&◌, Option, none, some,
  List, [], ◌∷◌, map, ℤ, pos, negsuc, ◌+ℤ◌, is_positive, if◌then◌else◌, str_eq,
}
use dumb_browser.PrivacyGuard.Libraries.{UrlLibraries}
use dumb_browser.PrivacyGuard.Matcher.{QueryMatcher, new_query_matcher}
use dumb_browser.PrivacyGuard.DefaultRules.{get_default_global_rules, get_default_per_site_rules}

pub record UrlPurifyResult (lib : UrlLibraries) : Type 0 where
  pub new_url : Option lib.Url
  pub count : ℤ

pub record UrlPurifyDelegate (lib : UrlLibraries) : Type 0 where
  pub enabled : Bool
  pub global_rules_matcher : QueryMatcher lib
  pub per_site_matchers : List (QueryMatcher lib)

-- `full_url.length() - 1`, in size_t.
abbrev pub end_position : String → ℕ
end_position full_url = (len full_url + 2 ^ 64 - 1) % 2 ^ 64

module _ (lib : UrlLibraries) where
  open lib use {matches, global_replace, spec, has_query, query, clear_query, set_query}

  unfoldable pub new_url_purify_delegate : UrlPurifyDelegate lib
  unfolding new_query_matcher
  new_url_purify_delegate = record {
    enabled = true;
    global_rules_matcher = new_query_matcher lib get_default_global_rules;
    per_site_matchers = map (new_query_matcher lib) get_default_per_site_rules;
  }

  unfoldable pub set_enabled : UrlPurifyDelegate lib → Bool → UrlPurifyDelegate lib
  set_enabled d enabled = record d { enabled = enabled }

  -- The bytes are copied into a string and dropped; the callback is never run.
  unfoldable pub on_new_rules : UrlPurifyDelegate lib → List ℕ → UrlPurifyDelegate lib
  on_new_rules d purify_rules = d

  abbrev pub matches_url : lib.Regex → String → Bool
  matches_url re full_url = matches re full_url 0 (end_position full_url)

  abbrev pub meets_exception : QueryMatcher lib → String → Bool
  meets_exception m full_url = elim m.url_exception_matcher [
    | none ↦ false
    | some re ↦ matches_url re full_url
  ]

  -- The loop over `query_matchers`, with its count and the query that it changes in place.
  unfoldable pub filter_query : List lib.Regex → ℤ → String → ℤ × String
  filter_query [] count new_query = (count, new_query)
  filter_query (re ∷ res) count new_query =
      let (n, replaced) = global_replace re new_query "" in
      filter_query res (count +ℤ pos n) replaced

  -- -2: the rule does not concern this URL; -1: an exception was met; else the number removed.
  unfoldable pub try_apply_matcher : QueryMatcher lib → Bool → String → String → ℤ × String
  try_apply_matcher m is_global full_url new_query =
      if not is_global && matches_url m.url_matcher full_url
      then (negsuc 1, new_query)
      else if not is_global && meets_exception m full_url
      then (negsuc 0, new_query)
      else filter_query m.query_matchers (pos 0) new_query

  -- The loop over `per_site_matchers`: -1 and any count from 0 up end it.
  unfoldable pub apply_per_site : List (QueryMatcher lib) → String → ℤ → String → ℤ × String
  apply_per_site [] full_url count new_query = (count, new_query)
  apply_per_site (m ∷ ms) full_url count new_query =
      let (ret, changed) = try_apply_matcher m false full_url new_query in
      elim ret [
        | pos n ↦ (count +ℤ pos n, changed)
        | negsuc zero ↦ (count, changed)
        | negsuc (suc n) ↦ apply_per_site ms full_url count changed
      ]

  -- The query and the count before the result is built: the global rules, then the per-site ones.
  unfoldable pub apply_rules : UrlPurifyDelegate lib → String → String → ℤ × String
  apply_rules d full_url new_query =
      let (ret, changed) = try_apply_matcher d.global_rules_matcher true full_url new_query in
      apply_per_site d.per_site_matchers full_url (pos 0 +ℤ ret) changed

  abbrev pub unchanged : UrlPurifyResult lib
  unchanged = record { new_url = none; count = pos 0 }

  abbrev pub replace_query : lib.Url → String → lib.Url
  replace_query url new_query =
      if str_eq new_query "" then clear_query url else set_query url new_query

  -- `request_url` is `request->url()`; the source does not read its second argument.
  unfoldable pub truncate_url_parameters :
      UrlPurifyDelegate lib → lib.Url → lib.Url → UrlPurifyResult lib
  truncate_url_parameters d request_url effective_url =
      if not d.enabled
      then unchanged
      else if has_query request_url
      then (let (count, new_query) = apply_rules d (spec request_url) (query request_url) in
          if is_positive count
          then record { new_url = some (replace_query request_url new_query); count = count }
          else unchanged)
      else unchanged
