-- ===== src/Browser/Flags/Applied.antt =====
-- What the flags of dumb/browser/about_flags.cc come to on the command line, and with it the mute
-- button of dumb/browser/ui/views/tabs/alert_indicator_button.cc.
use dumb_browser.Base.{
  ◌≡◌, refl, ◌∙◌, sym, ap, inl, inr, map, ◌↔◌, ◌⊎◌, ◌*◌, ◌/◌, ◌≤◌, Option, String, Bool, true,
  false, not, ◌&&◌, ◌||◌, List, [], ◌∷◌, str_eq, arith, some,
}
use dumb_browser.AlertIndicator.{Button, Surroundings, update_enabled_for_mute_toggle}
use dumb_browser.AlertIndicator.View.{ButtonBase, SetsEnabled}
use dumb_browser.AlertIndicator.Images.{TabAlertState, audio_playing, audio_muting}
use dumb_browser.AlertIndicator.Clicks.{update_enabled_for_mute_toggle_iff}
use package.dumb_browser.Browser.Flags.{
  Platform, os_mac, os_win, os_linux, os_cr_os, os_android, EntryType, feature_value, single_value,
  FeatureEntry, get_dumb_feature_entries,
}
use package.dumb_browser.Browser.Flags.Descriptions.{
  tab_audio_muting_flag_id, fingerprinting_client_rects_noise_id,
  fingerprinting_canvas_measure_text_noise_id, fingerprinting_canvas_image_data_noise_id,
}
use package.dumb_browser.Browser.Flags.Features.{
  tab_audio_muting, fingerprinting_client_rects_noise, fingerprinting_canvas_measure_text_noise,
  fingerprinting_canvas_image_data_noise,
}

abbrev pub contains : String → List String → Bool
contains s [] = false
contains s (t ∷ ts) = str_eq t s || contains s ts

abbrev pub same_platform : Platform → Platform → Bool
same_platform os_mac os_mac = true
same_platform os_win os_win = true
same_platform os_linux os_linux = true
same_platform os_cr_os os_cr_os = true
same_platform os_android os_android = true
same_platform _ _ = false

abbrev pub runs_on : Platform → List Platform → Bool
runs_on p [] = false
runs_on p (q ∷ qs) = same_platform q p || runs_on p qs

abbrev pub is_android : Platform → Bool
is_android os_android = true
is_android _ = false

-- Whether the entry stands for the switch.
abbrev pub has_value : String → EntryType → Bool
has_value s (feature_value f) = false
has_value s (single_value t) = str_eq t s

-- `flags_ui::FlagsState` where the browser's own entries are added to Chromium's.
pub record FlagsUi : Type 0 where
  -- `ConvertFlagsToSwitches`: the command line that it leaves on a platform, given the browser's
  -- entries, the names of the flags that are enabled and the command line before.
  pub convert_flags_to_switches :
      List FeatureEntry → Platform → List String → List String → List String
  -- The switches that it may append for other reasons: those of Chromium's own entries, the lists of
  -- the features to enable and to disable, and what it puts around its switches.
  pub other_switches : List String

abbrev pub turns_on : Platform → List String → String → List FeatureEntry → Bool
turns_on p names s [] = false
turns_on p names s (e ∷ es) =
    (contains e.internal_name names && runs_on p e.supported_platforms && has_value s e.entry_type)
    || turns_on p names s es

-- The internal names of entries tell them apart.
abbrev pub are_distinct : List FeatureEntry → Bool
are_distinct [] = true
are_distinct (e ∷ es) =
    not (contains e.internal_name (map (λ o. o.internal_name) es)) && are_distinct es

-- What flags_ui documents of a FeatureEntry::SINGLE_VALUE, where names tell entries apart and flags_ui
-- has no other use of the switch: the switch is on the command line if it was there before, or if an
-- enabled flag of the platform has it.
abbrev pub AppendsSwitches : FlagsUi → Type 0
AppendsSwitches ui =
    (es : List FeatureEntry) (p : Platform) (names given : List String) (s : String)
    → are_distinct es ≡ true
    → contains s ui.other_switches ≡ false
    → contains s (ui.convert_flags_to_switches es p names given)
      ≡ contains s given || turns_on p names s es

-- Nothing else in flags_ui uses the switches of the browser's own entries.
abbrev pub HasOwnSwitches : FlagsUi → Type 0
HasOwnSwitches ui =
    (contains tab_audio_muting ui.other_switches ≡ false)
    × (contains fingerprinting_client_rects_noise ui.other_switches ≡ false)
    × (contains fingerprinting_canvas_measure_text_noise ui.other_switches ≡ false)
    × (contains fingerprinting_canvas_image_data_noise ui.other_switches ≡ false)

-- `AreExperimentalMuteControlsEnabled`, on the switches of the command line
unfoldable pub are_experimental_mute_controls_enabled : List String → Bool
are_experimental_mute_controls_enabled switches = contains tab_audio_muting switches

-- When the button works as a mute button: the switch or the flag, the alert, and the room there is.
abbrev pub MuteButton :
    Platform → List String → List String → Surroundings → Option TabAlertState → Type 0
MuteButton p names given env alert_state =
    ((contains tab_audio_muting given ≡ true)
      ⊎ ((contains tab_audio_muting_flag_id names ≡ true) × (is_android p ≡ false)))
    × ((alert_state ≡ some audio_playing) ⊎ (alert_state ≡ some audio_muting))
    × ((env.is_active ≡ true) ⊎ (env.width * 250 / 100 ≤ env.selectable_width))

-- The switches that are on are those that were on before and those of the flags that are enabled,
-- each flag with its own.
abbrev pub OwnSwitches : (String → Bool) → Platform → List String → List String → Type 0
OwnSwitches on p names given =
    (on tab_audio_muting
      ≡ contains tab_audio_muting given
        || (contains tab_audio_muting_flag_id names && not (is_android p)))
    × (on fingerprinting_client_rects_noise
        ≡ contains fingerprinting_client_rects_noise given
          || contains fingerprinting_client_rects_noise_id names)
    × (on fingerprinting_canvas_measure_text_noise
        ≡ contains fingerprinting_canvas_measure_text_noise given
          || contains fingerprinting_canvas_measure_text_noise_id names)
    × (on fingerprinting_canvas_image_data_noise
        ≡ contains fingerprinting_canvas_image_data_noise given
          || contains fingerprinting_canvas_image_data_noise_id names)

get_dumb_feature_entries-turns_on :
    (p : Platform) (names : List String)
    → OwnSwitches (λ s. turns_on p names s get_dumb_feature_entries) p names []
unfolding get_dumb_feature_entries
get_dumb_feature_entries-turns_on os_mac names = ground arith
get_dumb_feature_entries-turns_on os_win names = ground arith
get_dumb_feature_entries-turns_on os_linux names = ground arith
get_dumb_feature_entries-turns_on os_cr_os names = ground arith
get_dumb_feature_entries-turns_on os_android names = ground arith

get_dumb_feature_entries-are_distinct : are_distinct get_dumb_feature_entries ≡ true
unfolding get_dumb_feature_entries
get_dumb_feature_entries-are_distinct = refl

or_and_not : (a b c : Bool) → (a || (b && not c) ≡ true) ↔ ((a ≡ true) ⊎ ((b ≡ true) × (c ≡ false)))
or_and_not true b c = (λ h. inl refl, λ h. refl)
or_and_not false true true = (λ h. ground arith, λ h. ground arith)
or_and_not false true false = (λ h. inr (refl, refl), λ h. refl)
or_and_not false false c = (λ h. ground arith, λ h. ground arith)

module _ (ui : FlagsUi) where
  -- The command line that the process goes on with.
  abbrev pub command_line : Platform → List String → List String → List String
  command_line p names given = ui.convert_flags_to_switches get_dumb_feature_entries p names given

  on_command_line :
      (p : Platform) (names given : List String) (s : String) (by_flag : Bool)
      → AppendsSwitches ui
      → contains s ui.other_switches ≡ false
      → turns_on p names s get_dumb_feature_entries ≡ by_flag
      → contains s (command_line p names given) ≡ contains s given || by_flag
  on_command_line p names given s by_flag appends own e =
      appends get_dumb_feature_entries p names given s get_dumb_feature_entries-are_distinct own
      ∙ ap (λ b. contains s given || b) e

  -- Let flags_ui append the switches of single-value entries as it documents, and use the browser's
  -- own switches for nothing else. On every platform, whatever flags are enabled and whatever
  -- switches the user has given: the switch of the mute controls is on the command line exactly if
  -- the user has given it, or its flag is enabled and the platform is not Android; and the switch of
  -- each fingerprinting deception exactly if the user has given it or the flag of that deception is
  -- enabled.
  pub command_line-OwnSwitches :
      (p : Platform) (names given : List String)
      → AppendsSwitches ui
      → HasOwnSwitches ui
      → OwnSwitches (λ s. contains s (command_line p names given)) p names given
  command_line-OwnSwitches p names given appends own =
      let by_flag = get_dumb_feature_entries-turns_on p names in
      (
        on_command_line p names given _ _ appends own.0 by_flag.0,
        on_command_line p names given _ _ appends own.1 by_flag.1,
        on_command_line p names given _ _ appends own.2 by_flag.2,
        on_command_line p names given _ _ appends own.3 by_flag.3,
      )

  -- Let flags_ui append the switches of single-value entries as it documents, and use the browser's
  -- own switches for nothing else, and let the button read the mute controls' switch from the
  -- command line. For every tab, alert and view whose SetEnabled sets what GetEnabled gives: after
  -- an update the button is enabled exactly if the user has given the switch, or its flag is enabled
  -- and the platform is not Android; the alert is one of audio; and the tab is active or its
  -- selectable region is at least two and a half times as wide as the button.
  pub update_enabled_for_mute_toggle-command_line :
      (base : ButtonBase) (env : Surroundings) (b : Button) (p : Platform)
      (names given : List String)
      → SetsEnabled base
      → AppendsSwitches ui
      → HasOwnSwitches ui
      → env.mute_controls_enabled
        ≡ are_experimental_mute_controls_enabled (command_line p names given)
      → ((update_enabled_for_mute_toggle base env b).view.enabled ≡ true)
        ↔ MuteButton p names given env b.alert_state
  unfolding are_experimental_mute_controls_enabled
  update_enabled_for_mute_toggle-command_line base env b p names given sets appends own here =
      let iff = (update_enabled_for_mute_toggle_iff base sets env b).0 in
      let on = here ∙ (command_line-OwnSwitches p names given appends own).0 in
      let given_or_flag =
        or_and_not (contains tab_audio_muting given) (contains tab_audio_muting_flag_id names)
          (is_android p) in
      (
        λ h. let can = iff.0 h in (given_or_flag.0 (sym on ∙ can.0), can.1, can.2),
        λ h. iff.1 (on ∙ given_or_flag.1 h.0, h.1, h.2),
      )
