-- ===== src/PrivacyGuard/Service.antt =====
-- dumb/components/privacy_guard/browser/dumb_privacy_guard_service.{h,cc} and
-- dumb/browser/dumb_profile_prefs.cc. A preference registry is the list of the Boolean preferences
-- registered with it and their defaults.
use dumb_browser.Base.{String, Bool, true, List, ◌∷◌}

abbrev pub PrefRegistry : Type 0
PrefRegistry = List (String × Bool)

abbrev pub url_purify_enabled : String
url_purify_enabled = "privacy_guard.url_purify.enabled"

-- `DumbPrivacyGuardService::RegisterProfilePrefs`
unfoldable pub register_service_prefs : PrefRegistry → PrefRegistry
register_service_prefs registry = (url_purify_enabled, true) ∷ registry

-- `dumb::RegisterProfilePrefs`; the locale is not read.
unfoldable pub register_profile_prefs : PrefRegistry → String → PrefRegistry
unfolding register_service_prefs
register_profile_prefs registry locale = register_service_prefs registry
