-- ===== src/PrivacyGuard/Libraries.antt =====
-- What the purifier takes from elsewhere: RE2, GURL and base::JoinString. Every definition that
-- uses them takes this record.
use dumb_browser.Base.{ℕ, ◌+◌, ◌≤◌, ◌≡◌, String, len, Bool, true, false, List}

pub record UrlLibraries : Type 1 where
  pub Regex : Type 0
  -- `RE2(pattern, options)`; the flag is `case_sensitive`.
  pub compile : Bool → String → Regex
  -- `Match(text, startpos, endpos, UNANCHORED, nullptr, 0)`
  pub matches : Regex → String → ℕ → ℕ → Bool
  -- `GlobalReplace(&str, re, rewrite)`: how many matches were replaced, and the new text.
  pub global_replace : Regex → String → String → ℕ × String
  -- `base::JoinString(parts, separator)`
  pub join_string : List String → String → String
  pub Url : Type 0
  pub spec : Url → String
  pub has_query : Url → Bool
  pub query : Url → String
  -- `ReplaceComponents` with `ClearQuery()`, and with `SetQuery(q)`.
  pub clear_query : Url → Url
  pub set_query : Url → String → Url

-- RE2 documents that the count is the number of replacements made, so none means an unchanged text.
pub record CountsReplacements (lib : UrlLibraries) : Type 0 where
  pub none_replaced :
      (re : lib.Regex) (s r : String)
      → (lib.global_replace re s r).0 ≡ 0
      → (lib.global_replace re s r).1 ≡ s

-- GURL documents what its setters do to the query.
pub record SetsQuery (lib : UrlLibraries) : Type 0 where
  pub query-set_query : (u : lib.Url) (q : String) → lib.query (lib.set_query u q) ≡ q
  pub has_query-set_query : (u : lib.Url) (q : String) → lib.has_query (lib.set_query u q) ≡ true
  pub has_query-clear_query : (u : lib.Url) → lib.has_query (lib.clear_query u) ≡ false

-- A regex all of whose matches are non-empty: replacing a match by "" removes at least a byte.
abbrev pub Shrinks : (lib : UrlLibraries) → lib.Regex → Type 0
Shrinks lib re =
    (s : String) → (lib.global_replace re s "").0 + len (lib.global_replace re s "").1 ≤ len s
