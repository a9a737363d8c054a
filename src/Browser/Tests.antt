-- ===== src/Browser/Tests.antt =====
-- Flags that are applied as flags_ui does it, and profiles that are numbers: an incognito profile is
-- ten more than its original, and the services made are kept with the context that they are for.
use dumb_browser.Base.{
  ℕ, ◌+◌, ◌-◌, ◌&&◌, ◌||◌, ◌≡◌, ◌↔◌, refl, String, Bool, true, false, none, some, List, [], ◌∷◌,
  if◌then◌else◌, ltb, arith, Option-cases, Bool-cases, inl, inr, ◌==◌,
}
use dumb_browser.Base.Dict.{Dict, lookup, insert, lookup-insert, lookup-insert_self}
use dumb_browser.AlertIndicator.{Button, new_button, update_enabled_for_mute_toggle}
use dumb_browser.AlertIndicator.Images.{audio_playing}
use dumb_browser.AlertIndicator.View.{normal}
use dumb_browser.AlertIndicator.Toy.{toy, toy-SetsEnabled, tab}
use dumb_browser.Browser.Flags.{
  os_linux, Platform, FeatureEntry, EntryType, feature_value, single_value,
  get_dumb_feature_entries,
}
use dumb_browser.Browser.Flags.Applied.{
  contains, runs_on, has_value, turns_on, FlagsUi, AppendsSwitches,
  are_experimental_mute_controls_enabled, MuteButton, OwnSwitches, command_line,
  command_line-OwnSwitches, update_enabled_for_mute_toggle-command_line,
}
use dumb_browser.Browser.Profiles.{
  ProfileLibraries, Process, get_for_browser_context, pre_profile_init,
}
use dumb_browser.Browser.Profiles.Services.{
  KeyedServices, IsKeyed, Reachable, starts, initialises, asks, get_for_browser_context-shared,
}
use dumb_browser.Browser.Preferences.{
  remove_after_completion, pref_type_boolean, pref_type_string, assign, add_allowlisted_keys,
  get_dumb_version_string,
}

abbrev append_value : Bool → EntryType → List String → List String
append_value on (feature_value f) switches = if on then "enable-features" ∷ switches else switches
append_value on (single_value s) switches = if on then s ∷ switches else switches

abbrev append : List FeatureEntry → Platform → List String → List String → List String
append [] p names given = "flag-switches-end" ∷ given
append (e ∷ es) p names given =
    append_value (contains e.internal_name names && runs_on p e.supported_platforms) e.entry_type
      (append es p names given)

abbrev ui : FlagsUi
ui = record {
  convert_flags_to_switches = λ es p names given. "flag-switches-begin" ∷ append es p names given;
  other_switches = "flag-switches-begin" ∷ "flag-switches-end" ∷ "enable-features" ∷ [];
}

append_value-contains :
    (on : Bool) (t : EntryType) (switches : List String) (s : String)
    → contains s ui.other_switches ≡ false
    → contains s (append_value on t switches) ≡ (on && has_value s t) || contains s switches
append_value-contains on (feature_value f) switches s other = ground (arith, other)
append_value-contains on (single_value t) switches s other = ground arith

append-contains :
    (es : List FeatureEntry) (p : Platform) (names given : List String) (s : String)
    → contains s ui.other_switches ≡ false
    → contains s (append es p names given) ≡ contains s given || turns_on p names s es
append-contains [] p names given s other = ground (arith, other)
append-contains (e ∷ es) p names given s other = ground (
  arith,
  append_value-contains (contains e.internal_name names && runs_on p e.supported_platforms)
      e.entry_type (append es p names given) s other,
  append-contains es p names given s other,
)

ui-AppendsSwitches : AppendsSwitches ui
ui-AppendsSwitches es p names given s distinct other =
    ground (arith, other, append-contains es p names given s other)

abbrev flags : List String
flags = "enable-tab-audio-muting" ∷ "fingerprinting-canvas-image-data-noise" ∷ []

-- The user asks for a switch of the browser's own, and for one that it does not know.
abbrev given : List String
given = "fingerprinting-client-rects-noise" ∷ "incognito" ∷ []

command_line-OwnSwitches_example :
    OwnSwitches (λ s. contains s (command_line ui os_linux flags given)) os_linux flags given
command_line-OwnSwitches_example =
    command_line-OwnSwitches ui os_linux flags given ui-AppendsSwitches (refl, refl, refl, refl)

-- A tab that plays audio in a window of its own.
abbrev playing : Button
playing = record (new_button (record { enabled = false; state = normal })) {
  alert_state = some audio_playing;
}

update_enabled_for_mute_toggle-command_line_example :
    ((update_enabled_for_mute_toggle toy tab playing).view.enabled ≡ true)
    ↔ MuteButton os_linux flags given tab (some audio_playing)
unfolding are_experimental_mute_controls_enabled get_dumb_feature_entries
update_enabled_for_mute_toggle-command_line_example =
    update_enabled_for_mute_toggle-command_line ui toy tab playing os_linux flags given
      toy-SetsEnabled ui-AppendsSwitches (refl, refl, refl, refl) refl

command_line_test :
    command_line ui os_linux flags given
    ≡ "flag-switches-begin" ∷ "tab-audio-muting" ∷ "fingerprinting-canvas-image-data-noise"
      ∷ "flag-switches-end" ∷ given
unfolding get_dumb_feature_entries
command_line_test = refl

abbrev profiles : ProfileLibraries
profiles = record {
  BrowserContext = ℕ;
  PrefService = ℕ;
  PrefChangeRegistrar = ℕ;
  Services = Dict (ℕ × ℕ);
  get_prefs = λ c. c + 100;
  new_registrar = 0;
  init_registrar = λ prefs registrar. prefs + registrar;
  redirected_in_incognito = λ c. if ltb c 10 then c else c - 10;
}

abbrev keyed : KeyedServices profiles
keyed = record {
  get_service = λ f services c create.
      let key = f.get_browser_context_to_use c in
      elim (lookup key services) [
        | some kept ↦ (some (record { prefs = kept.0; pref_change_registrar = kept.1 }), services)
        | none ↦
            let made = f.build_service_instance_for key in
            if create
            then (some made, insert key (made.prefs, made.pref_change_registrar) services)
            else (none, services)
      ];
  new_services = [];
  find = λ services key. elim (lookup key services) [
    | some kept ↦ some (record { prefs = kept.0; pref_change_registrar = kept.1 })
    | none ↦ none
  ];
  associate = λ services key made. insert key (made.prefs, made.pref_change_registrar) services;
}

keyed-IsKeyed : IsKeyed keyed
unfolding lookup
keyed-IsKeyed = record {
  found = λ f s c v here. elim (Option-cases (lookup (f.get_browser_context_to_use c) s)) [
    | inl none_there ↦ ground (arith, here, none_there)
    | inr (kept, there) ↦ ground (arith, here, there)
  ];
  built = λ f s c none_there. elim (Option-cases (lookup (f.get_browser_context_to_use c) s)) [
    | inl gone ↦ ground (arith, gone)
    | inr (kept, there) ↦ ground (arith, none_there, there)
  ];
  find-new_services = λ k. refl;
  find-associate =
      λ s k v. ground (arith, lookup-insert_self k (v.prefs, v.pref_change_registrar) s);
  find-associate_other = λ s k j v w here.
      let other = lookup-insert k j (v.prefs, v.pref_change_registrar) s in
      elim (Bool-cases (k == j)) [
        | inl e ↦ inl (ground (arith, e, here, other), ground (arith, e, here, other))
        | inr e ↦ inr (ground (arith, e, here, other))
      ];
}

-- Profiles were initialised twice and profile 3 has asked when profile 4 asks in incognito.
abbrev started : Process profiles
started = record { instance_ = none; services = [] }

abbrev running : Process profiles
running =
    (get_for_browser_context profiles keyed.get_service
      (pre_profile_init profiles (pre_profile_init profiles started)) 3).1

running-Reachable : Reachable profiles keyed running
running-Reachable = asks 3 (initialises (initialises starts))

get_for_browser_context-shared_example :
    let made = get_for_browser_context profiles keyed.get_service running 14 in
    (made.0 ≡ some (record { prefs = 104; pref_change_registrar = 104 }))
    × (get_for_browser_context profiles keyed.get_service made.1 4 ≡ made)
get_for_browser_context-shared_example =
    get_for_browser_context-shared profiles keyed running 14 4 keyed-IsKeyed running-Reachable refl

add_allowlisted_keys_test :
    add_allowlisted_keys ((remove_after_completion, pref_type_string) ∷ [])
    ≡ (remove_after_completion, pref_type_boolean) ∷ []
unfolding add_allowlisted_keys assign
add_allowlisted_keys_test = refl

get_dumb_version_string_test :
    get_dumb_version_string "1.0.2" "91.0.4472.77" ≡ "1.0.2 (Chromium 91.0.4472.77)"
unfolding get_dumb_version_string
get_dumb_version_string_test = refl
