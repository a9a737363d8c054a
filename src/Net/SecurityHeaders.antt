-- ===== src/Net/SecurityHeaders.antt =====
-- dumb/browser/net/dumb_stp_util.{h,cc}. `override_response_headers` is the pointee of the source's
-- double pointer: none is a null pointer.
pub mod ThirdParty
use dumb_browser.Base.{
  ◌≡◌, refl, ◌∙◌, String, Bool, true, false, not, ◌&&◌, ◌||◌, Option, none, some, List, [], ◌∷◌,
  if◌then◌else◌, is_none, Bool-cases, arith,
}
use dumb_browser.Net.Libraries.{NetLibraries, RemovesHeaders}

-- The `flat_set` keeps its names in this order.
abbrev pub trackable_security_headers : List String
trackable_security_headers =
    "Expect-CT" ∷ "Public-Key-Pins" ∷ "Public-Key-Pins-Report-Only" ∷ "Strict-Transport-Security"
    ∷ []

module _ (lib : NetLibraries) where
  unfoldable pub remove_headers : List String → lib.ResponseHeaders → lib.ResponseHeaders
  remove_headers [] h = h
  remove_headers (n ∷ ns) h = remove_headers ns (lib.remove_header h n)

  -- none would be a read through a null `original_response_headers`.
  override_or_copy :
      Option lib.ResponseHeaders → Option lib.ResponseHeaders → Option lib.ResponseHeaders
  override_or_copy original (some override) = some override
  override_or_copy (some original) none = some (lib.parse_headers (lib.raw_headers original))
  override_or_copy none none = none

  -- The new value of `*override_response_headers`.
  unfoldable pub remove_trackable_security_headers_for_third_party :
      lib.Url
      → lib.Origin
      → Option lib.ResponseHeaders
      → Option lib.ResponseHeaders
      → Option lib.ResponseHeaders
  unfolding remove_headers override_or_copy
  remove_trackable_security_headers_for_third_party request_url top_frame_origin original override =
      if is_none original && is_none override
      then override
      else if lib.is_same_domain_or_host request_url top_frame_origin
      then override
      else elim (override_or_copy original override) [
        | none ↦ none
        | some h ↦ some (remove_headers trackable_security_headers h)
      ]
