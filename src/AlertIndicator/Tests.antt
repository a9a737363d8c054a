-- ===== src/AlertIndicator/Tests.antt =====
-- Buttons over the small view of AlertIndicator/Toy.
use dumb_browser.Base.{
  ◌≡◌, ◌-◌, ◌↔◌, refl, inl, ℕ, true, false, none, some, List, [], ◌∷◌, ◌++◌, ltb, arith,
}
use dumb_browser.AlertIndicator.{
  Button, Call, animation_ended, toggle_tab_audio_mute, new_button, transition_to_alert_state,
  notify_click, is_triggerable_event, on_mouse_exited, image_to_paint, recording,
}
use dumb_browser.AlertIndicator.Images.{audio_playing, audio_muting, media_recording}
use dumb_browser.AlertIndicator.View.{ButtonView, normal, gesture, MouseEvent}
use dumb_browser.AlertIndicator.Fades.{ShowsState}
use dumb_browser.AlertIndicator.Life.{
  Reachable, starts, goes_on, transitions, is_clicked, animation_ends,
}
use dumb_browser.AlertIndicator.Shown.{Reachable-Shown}
use dumb_browser.AlertIndicator.Clicks.{Toggled, Reachable-is_dormant, notify_click_lem}
use dumb_browser.AlertIndicator.Sleep.{IsDeliberate, notify_click-is_triggerable_event}
use dumb_browser.AlertIndicator.Painting.{Opacities, animation_parts, throb_parts, opaqueness}
use dumb_browser.AlertIndicator.Painting.Throb.{IsExact, at, opaqueness_lem}
use dumb_browser.AlertIndicator.Toy.{toy, toy-SetsEnabled, tab}

abbrev view : ButtonView
view = record { enabled = false; state = normal }

abbrev playing : Button
playing = transition_to_alert_state toy tab (some audio_playing) (new_button view)

abbrev playing-Reachable : Reachable toy playing
playing-Reachable =
    goes_on (new_button view) playing (starts view)
      (transitions tab (some audio_playing) (new_button view))

-- The tab falls silent, and the fade of its icon ends.
abbrev silent : Button
silent = transition_to_alert_state toy tab none playing

abbrev silent-Reachable : Reachable toy (animation_ended silent)
silent-Reachable =
    goes_on silent _ (goes_on playing _ playing-Reachable (transitions tab none playing))
      (animation_ends silent)

Reachable-Shown_example :
    ShowsState (animation_ended silent)
    × (false ≡ false
        → (animation_ended silent).showing_alert_state ≡ (animation_ended silent).alert_state)
Reachable-Shown_example = Reachable-Shown toy (animation_ended silent) silent-Reachable

playing-enabled : playing.view.enabled ≡ true
unfolding transition_to_alert_state new_button
playing-enabled = refl

Reachable-is_dormant_example : (notify_click toy tab playing).view.enabled ≡ true
unfolding notify_click transition_to_alert_state new_button
Reachable-is_dormant_example =
    Reachable-is_dormant toy toy-SetsEnabled (notify_click toy tab playing)
      (goes_on playing _ playing-Reachable (is_clicked tab playing playing-enabled)) refl

notify_click_lem_example :
    let c = notify_click toy tab playing in
    Toggled tab audio_muting c
    × ((before : List Call) × (c.calls ≡ before ++ toggle_tab_audio_mute ∷ []))
unfolding transition_to_alert_state new_button
notify_click_lem_example =
    notify_click_lem toy toy-SetsEnabled tab playing audio_playing audio_muting (inl (refl, refl))
      refl

abbrev click : MouseEvent
click = record { only_left_mouse_button = true; shift_down = false; control_down = false }

notify_click-is_triggerable_event_example :
    let c = notify_click toy tab playing in
    let d = on_mouse_exited toy click c in
    (is_triggerable_event toy tab gesture c ≡ false)
    × (image_to_paint toy c ≡ normal)
    × ((is_triggerable_event toy tab gesture d ≡ true) ↔ (IsDeliberate tab gesture × (true ≡ true)))
unfolding notify_click transition_to_alert_state new_button
notify_click-is_triggerable_event_example =
    notify_click-is_triggerable_event toy toy-SetsEnabled tab tab playing gesture click refl

-- Opacities in thousandths.
abbrev thousandths : Opacities
thousandths = record {
  Opacity = ℕ;
  zero_opacity = 0;
  half_opacity = 500;
  one_opacity = 1000;
  from_one = λ x. 1000 - x;
  is_below_one = λ x. ltb x 1000;
}

thousandths-IsExact : IsExact thousandths
thousandths-IsExact = record { from_zero = refl; from_whole = refl }

-- The recording animation at the end of its last part.
abbrev recorded : Button
recorded = record {
  alert_state = some media_recording;
  showing_alert_state = some media_recording;
  fade_animation = some recording;
  is_dormant = false;
  view = view;
  images = none;
  calls = [];
}

opaqueness_lem_example :
    (opaqueness thousandths recorded (at thousandths 0 0) ≡ 0)
    × (opaqueness thousandths recorded (at thousandths 4 1000) ≡ 1000)
unfolding animation_parts throb_parts
opaqueness_lem_example =
    opaqueness_lem thousandths thousandths-IsExact recorded recording 4 refl (omega arith)
