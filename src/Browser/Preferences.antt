-- ===== src/Browser/Preferences.antt =====
-- The preferences that dumb/browser/extensions/api/settings_private/prefs_util.cc lets the settings
-- page read, and the version text of dumb/components/version_info/version_string.cc. A
-- `std::map` keyed by a text is an association list.
use dumb_browser.Base.{String, ◌<>◌, List, [], ◌∷◌, if◌then◌else◌, str_eq}

pub data PrefType : Type 0 where
  pref_type_boolean pref_type_number pref_type_string pref_type_url pref_type_list
        pref_type_dictionary :
      PrefType

abbrev pub TypedPrefMap : Type 0
TypedPrefMap = List (String × PrefType)

abbrev pub remove_after_completion : String
remove_after_completion = "download.remove_after_completion"

-- `s_allowlist[key] = type`
unfoldable pub assign : String → PrefType → TypedPrefMap → TypedPrefMap
assign key type [] = (key, type) ∷ []
assign key type (entry ∷ rest) =
    if str_eq entry.0 key then (key, type) ∷ rest else entry ∷ assign key type rest

unfoldable pub add_allowlisted_keys : TypedPrefMap → TypedPrefMap
unfolding assign
add_allowlisted_keys s_allowlist = assign remove_after_completion pref_type_boolean s_allowlist

-- The text of IDS_DUMB_VERSION and Chromium's version number come in.
unfoldable pub get_dumb_version_string : String → String → String
get_dumb_version_string dumb_version version_number =
    ((dumb_version <> " (Chromium ") <> version_number) <> ")"
