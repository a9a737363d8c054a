-- ===== src/PrivacyGuard/Tests.antt =====
-- The purifier over a small engine: a pattern stands for itself, `Match` looks for it at the start
-- of the text, and `GlobalReplace` replaces a text that is the whole pattern.
use text.Mathlib.Text.{starts_with}
use text.Mathlib.TextEquality.{eq_iff}
use dumb_browser.Base.{
  ◌≤◌, ◌≡◌, refl, inl, inr, String, len, ◌<>◌, ◌+ℤ◌, Bool-cases, true, Option, none, some, List, [],
  ◌∷◌, pos, if◌then◌else◌, is_some, str_eq, value_or, arith,
}
use dumb_browser.PrivacyGuard.Libraries.{UrlLibraries, CountsReplacements, SetsQuery, Shrinks}
use dumb_browser.PrivacyGuard.Matcher.{QueryMatcher, new_query_matcher}
use dumb_browser.PrivacyGuard.Delegate.{
  UrlPurifyDelegate, new_url_purify_delegate, filter_query, try_apply_matcher, apply_per_site,
  apply_rules, truncate_url_parameters,
}
use dumb_browser.PrivacyGuard.Delegate.PerSite.{apply_rules-active_regexes, apply_rules-without}
use dumb_browser.PrivacyGuard.Delegate.Defaults.{apply_rules-not_google}
use dumb_browser.PrivacyGuard.Delegate.Outcome.{
  IsOutcome, truncate_url_parameters_lem, truncate_url_parameters-IsOutcome,
  truncate_url_parameters_bound, truncate_url_parameters_untouched,
}

abbrev join : List String → String → String
join [] sep = ""
join (x ∷ []) sep = x
join (x ∷ xs) sep = x <> (sep <> join xs sep)

abbrev toy : UrlLibraries
toy = record {
  Regex = String;
  compile = λ _ p. p;
  matches = λ re s from to. starts_with s re;
  global_replace = λ re s r. if str_eq s re then (1, r) else (0, s);
  join_string = join;
  Url = String × Option String;
  spec = λ u. u.0 <> ("?" <> value_or u.1 "");
  has_query = λ u. is_some u.1;
  query = λ u. value_or u.1 "";
  clear_query = λ u. (u.0, none);
  set_query = λ u q. (u.0, some q);
}

toy-CountsReplacements : CountsReplacements toy
toy-CountsReplacements = record { none_replaced = λ re s r h. ground (arith, eq_iff s re) }

toy-SetsQuery : SetsQuery toy
toy-SetsQuery = record {
  query-set_query = λ u q. refl;
  has_query-set_query = λ u q. refl;
  has_query-clear_query = λ u. refl;
}

toy-Shrinks : Shrinks toy "spm=1"
toy-Shrinks s = elim (Bool-cases (str_eq s "spm=1")) [
  | inl same ↦ rw same (rw ((eq_iff s "spm=1").0 same) (omega arith))
  | inr differ ↦ rw differ (omega arith)
]

abbrev rule : String → String → List String → QueryMatcher toy
rule name url_matcher query_matchers = record {
  name = name;
  url_matcher = url_matcher;
  url_exception_matcher = none;
  query_matchers = query_matchers;
}

-- A global rule for `spm=1`, and a rule for the site `http://a` with the parameter `ref=2`.
abbrev delegate : UrlPurifyDelegate toy
delegate = record {
  enabled = true;
  global_rules_matcher = rule "Global" ".*" ("spm=1" ∷ []);
  per_site_matchers = rule "A" "http://a" ("ref=2" ∷ []) ∷ [];
}

-- On the site itself its parameter stays; on another one it goes.
site_rule_skipped :
    (apply_rules toy delegate "http://a?ref=2" "ref=2" ≡ (pos 0, "ref=2"))
    × (apply_rules toy delegate "http://b?ref=2" "ref=2" ≡ (pos 1, ""))
unfolding apply_rules try_apply_matcher apply_per_site filter_query ◌+ℤ◌
site_rule_skipped = (refl, refl)

apply_rules-active_regexes_example : apply_rules toy delegate "http://b?ref=2" "ref=2" ≡ (pos 1, "")
apply_rules-active_regexes_example =
    apply_rules-active_regexes toy delegate "http://b?ref=2" "ref=2"

-- A rule for the site `http://b` beside that for `http://a`.
abbrev site_a : QueryMatcher toy
site_a = rule "A" "http://a" ("ref=2" ∷ [])

abbrev site_b : QueryMatcher toy
site_b = rule "B" "http://b" ("ref=3" ∷ [])

apply_rules-without_example :
    apply_rules toy
      (record delegate { per_site_matchers = site_a ∷ site_b ∷ [] })
      "http://b?ref=2"
      "ref=2"
    ≡ apply_rules toy (record delegate { per_site_matchers = site_a ∷ [] }) "http://b?ref=2" "ref=2"
apply_rules-without_example =
    apply_rules-without toy delegate (site_a ∷ []) [] site_b "http://b?ref=2" "ref=2" refl

apply_rules-not_google_example :
    apply_rules toy (new_url_purify_delegate toy) "http://b?x=1" "x=1" ≡ (pos 0, "x=1")
unfolding new_query_matcher
apply_rules-not_google_example = apply_rules-not_google toy "http://b?x=1" "x=1" refl refl

abbrev tracked : String × Option String
tracked = ("http://a", some "spm=1")

truncate_url_parameters_lem_example :
    truncate_url_parameters toy delegate tracked tracked
    ≡ record { new_url = some ("http://a", none); count = pos 1 }
truncate_url_parameters_lem_example = truncate_url_parameters_lem toy delegate tracked tracked

truncate_url_parameters-IsOutcome_example :
    IsOutcome toy (truncate_url_parameters toy delegate tracked tracked)
truncate_url_parameters-IsOutcome_example =
    truncate_url_parameters-IsOutcome toy delegate tracked tracked

truncate_url_parameters_bound_example : 1 ≤ len "spm=1"
unfolding truncate_url_parameters apply_rules try_apply_matcher apply_per_site filter_query ◌+ℤ◌
truncate_url_parameters_bound_example =
    truncate_url_parameters_bound toy delegate tracked tracked (toy-Shrinks, tt) 1 refl

truncate_url_parameters_untouched_example : ◌≡◌ {A = String} "q=1" "q=1"
unfolding truncate_url_parameters apply_rules try_apply_matcher apply_per_site filter_query ◌+ℤ◌
truncate_url_parameters_untouched_example =
    truncate_url_parameters_untouched toy toy-CountsReplacements delegate ("http://a", some "q=1")
      tracked refl refl refl
