-- ===== src/Net/SecurityHeaders/ThirdParty.antt =====
-- What a third-party response keeps of its headers, and what a first-party response keeps.
use dumb_browser.Base.{
  ◌≡◌, refl, ap, String, Bool, true, false, ◌||◌, Option, none, some, List, [], ◌∷◌, if◌then◌else◌,
  arith, ◌⊎◌,
}
use dumb_browser.Net.Libraries.{NetLibraries, RemovesHeaders}
use package.dumb_browser.Net.SecurityHeaders.{
  trackable_security_headers, remove_headers, remove_trackable_security_headers_for_third_party,
}

-- The headers that the response has before: the overridden ones, if there are any.
abbrev pub current_headers {ℓ} : {H : Type ℓ} → Option H → Option H → Option H
current_headers original none = original
current_headers original (some override) = some override

-- The headers that let a site tell a returning visitor.
abbrev pub identifying_headers : List String
identifying_headers =
    "Strict-Transport-Security" ∷ "Expect-CT" ∷ "Public-Key-Pins" ∷ "Public-Key-Pins-Report-Only"
    ∷ []

abbrev pub is_named : (String → String → Bool) → List String → String → Bool
is_named same_name [] m = false
is_named same_name (n ∷ ns) m = same_name n m || is_named same_name ns m

module _ (lib : NetLibraries) (has : lib.ResponseHeaders → String → Bool)
    (same_name : String → String → Bool) (laws : RemovesHeaders lib has same_name) where
  has-remove_headers :
      (ns : List String) (h : lib.ResponseHeaders) (m : String)
      → has (remove_headers lib ns h) m ≡ (if is_named same_name ns m then false else has h m)
  unfolding remove_headers
  has-remove_headers [] h m = refl
  has-remove_headers (n ∷ ns) h m =
      ground (arith, has-remove_headers ns (lib.remove_header h n) m, laws.has-remove_header h n m)

  is_named-trackable :
      (m : String)
      → is_named same_name trackable_security_headers m ≡ is_named same_name identifying_headers m
  is_named-trackable m = ground arith

  -- As RemoveHeader is documented, a response of a third party that has headers, overridden or not,
  -- ends up with overriding headers that lack exactly the four identifying ones of those it had.
  pub remove_trackable-third_party :
      (url : lib.Url) (origin : lib.Origin) (original override : Option lib.ResponseHeaders)
      (h : lib.ResponseHeaders)
      → current_headers original override ≡ some h
      → lib.is_same_domain_or_host url origin ≡ false
      → (h' : lib.ResponseHeaders) × (remove_trackable_security_headers_for_third_party lib url
            origin original override
          ≡ some h')
        × ((m : String)
            → has h' m ≡ (if is_named same_name identifying_headers m then false else has h m))
  unfolding remove_trackable_security_headers_for_third_party
  remove_trackable-third_party url origin original (some g) h e third = (
    remove_headers lib trackable_security_headers g,
    ground arith,
    λ m. ground (
      arith,
      has-remove_headers trackable_security_headers g m,
      is_named-trackable m,
      ap (λ o. current_headers original o) e,
    ),
  )
  remove_trackable-third_party url origin (some g) none h e third = (
    remove_headers lib trackable_security_headers (lib.parse_headers (lib.raw_headers g)),
    ground arith,
    λ m. ground (
      arith,
      has-remove_headers trackable_security_headers (lib.parse_headers (lib.raw_headers g)) m,
      laws.has-copy g m,
      is_named-trackable m,
    ),
  )
  remove_trackable-third_party url origin none none h e third = cc

-- A response of the first party, and one without any headers, keep what they had: no null pointer
-- is read.
remove_trackable-first_party :
    (lib : NetLibraries) (url : lib.Url) (origin : lib.Origin)
    (original override : Option lib.ResponseHeaders)
    → (lib.is_same_domain_or_host url origin ≡ true) ⊎ (current_headers original override ≡ none)
    → remove_trackable_security_headers_for_third_party lib url origin original override ≡ override
unfolding remove_trackable_security_headers_for_third_party
remove_trackable-first_party lib url origin none none h = ground arith
remove_trackable-first_party lib url origin (some g) none h = ground arith
remove_trackable-first_party lib url origin original (some g) h = ground arith
