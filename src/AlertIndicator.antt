-- ===== src/AlertIndicator.antt =====
-- `AlertIndicatorButton` of dumb/browser/ui/views/tabs/alert_indicator_button.{h,cc}: the audio icon
-- of a tab, which is also its mute button. Left out: tooltips and class names. Widths are pixels and
-- never negative.
pub mod Images
pub mod View
pub mod Fades
pub mod Life
pub mod Shown
pub mod Clicks
pub mod Sleep
pub mod Painting
pub mod Toy
mod Tests
use dumb_browser.Base.{
  ℕ, ◌*◌, ◌/◌, Bool, true, false, not, ◌&&◌, ◌||◌, Option, none, some, List, [], ◌∷◌, ◌++◌,
  if◌then◌else◌, is_none, is_some, leb, ltb,
}
use Images.{
  TabAlertState, ButtonImages, is_audio, reset_images, same_state, toggles_audio, audio_playing,
  audio_muting,
}
use View.{
  ButtonBase, ButtonView, ButtonState, normal, is_disabled, is_hovered, MouseEvent,
  is_shift_or_control_down, Event, mouse, gesture, other_event,
}

pub data FadeAnimation : Type 0 where
  recording fade_in fade_out : FadeAnimation

-- What the button calls on its tab, and its own requests to be painted.
pub data Call : Type 0 where
  alert_state_changed toggle_tab_audio_mute schedule_paint : Call

-- What the button reads of its surroundings: the tab, the switch `tab-audio-muting`, the touch mode.
pub record Surroundings : Type 0 where
  pub mute_controls_enabled : Bool
  pub touch_ui : Bool
  pub is_active : Bool
  pub selectable_width : ℕ
  pub width : ℕ
  pub alert_indicator_color : TabAlertState → ℕ

pub record Button : Type 0 where
  pub alert_state : Option TabAlertState
  pub showing_alert_state : Option TabAlertState
  pub fade_animation : Option FadeAnimation
  -- whether `wake_up_timer_` is set
  pub is_dormant : Bool
  pub view : ButtonView
  pub images : Option ButtonImages
  pub calls : List Call

abbrev pub min_mouse_selectable_area_percent : ℕ
min_mouse_selectable_area_percent = 250

abbrev pub min_gesture_selectable_area_percent : ℕ
min_gesture_selectable_area_percent = 400

unfoldable pub create_fade_animation : Option TabAlertState → FadeAnimation
create_fade_animation (some TabAlertState.media_recording) = recording
create_fade_animation (some TabAlertState.tab_capturing) = recording
create_fade_animation (some TabAlertState.desktop_capturing) = recording
create_fade_animation (some _) = fade_in
create_fade_animation none = fade_out

abbrev pub call : Call → Button → Button
call c b = record b { calls = b.calls ++ c ∷ [] }

unfoldable pub new_button : ButtonView → Button
new_button view = record {
  alert_state = none;
  showing_alert_state = none;
  fade_animation = none;
  is_dormant = false;
  view = view;
  images = none;
  calls = [];
}

unfoldable pub enter_dormant_period : Button → Button
enter_dormant_period b = call schedule_paint (record b { is_dormant = true })

unfoldable pub exit_dormant_period : Button → Button
exit_dormant_period b =
    let b' : Button = record b { is_dormant = false } in
    if b.is_dormant then call schedule_paint b' else b'

abbrev pub is_audio_state : Option TabAlertState → Bool
is_audio_state none = false
is_audio_state (some a) = is_audio a

-- `FadeAnimationDelegate::AnimationEnded`; a cancelled animation ends in the same way.
unfoldable pub animation_ended : Button → Button
animation_ended b =
    call alert_state_changed
      (call schedule_paint (record b { showing_alert_state = b.alert_state }))

-- The tab hears of a change of what is shown.
unfoldable pub announce_change : Option TabAlertState → Button → Button
announce_change previous b =
    if not (same_state previous b.showing_alert_state) then call alert_state_changed b else b

module _ (base : ButtonBase) where
  abbrev pub should_enable : Surroundings → Option TabAlertState → Bool
  should_enable env alert_state =
      if env.mute_controls_enabled && is_audio_state alert_state
      then (if not env.is_active
          then leb (env.width * min_mouse_selectable_area_percent / 100) env.selectable_width
          else true)
      else false

  unfoldable pub update_enabled_for_mute_toggle : Surroundings → Button → Button
  unfolding enter_dormant_period exit_dormant_period
  update_enabled_for_mute_toggle env b =
      let was_enabled = b.view.enabled in
      let enable = should_enable env b.alert_state in
      if (enable && was_enabled) || (not enable && not was_enabled)
      then b
      else (let b' : Button = record b { view = base.set_enabled b.view enable } in
          if not was_enabled && is_hovered b'.view.state
          then enter_dormant_period b'
          else if not b'.view.enabled
          then exit_dormant_period b'
          else b')

  -- Everything of `TransitionToAlertState` that comes before the last two calls.
  unfoldable pub change_alert_state : Surroundings → Option TabAlertState → Button → Button
  unfolding create_fade_animation
  change_alert_state env next_state b =
      let images : Option ButtonImages = elim next_state [
        | none ↦ b.images
        | some a ↦ some (reset_images env.touch_ui (env.alert_indicator_color a) a)
      ] in
      if toggles_audio b.alert_state next_state
      then record b {
        images = images;
        showing_alert_state = next_state;
        fade_animation = none;
        alert_state = next_state;
      }
      else record b {
        images = images;
        showing_alert_state = if is_none next_state then b.alert_state else next_state;
        fade_animation = some (create_fade_animation next_state);
        alert_state = next_state;
      }

  unfoldable pub transition_to_alert_state : Surroundings → Option TabAlertState → Button → Button
  unfolding change_alert_state announce_change update_enabled_for_mute_toggle
  transition_to_alert_state env next_state b =
      if same_state next_state b.alert_state
      then b
      else update_enabled_for_mute_toggle env
          (announce_change b.showing_alert_state (change_alert_state env next_state b))

  unfoldable pub on_parent_tab_button_color_changed : Surroundings → Button → Button
  on_parent_tab_button_color_changed env b = elim b.alert_state [
    | none ↦ b
    | some a ↦
        if is_audio a
        then record b { images = some (reset_images env.touch_ui (env.alert_indicator_color a) a) }
        else b
  ]

  -- `SetState(STATE_NORMAL)`, unless the button is disabled.
  abbrev pub turn_off_hover : Button → Button
  turn_off_hover b =
      if not (is_disabled b.view.state) then record b { view = base.set_state b.view normal } else b

  unfoldable pub on_mouse_pressed : MouseEvent → Button → Bool × Button
  on_mouse_pressed event b =
      if not event.only_left_mouse_button || is_shift_or_control_down event
      then (false, turn_off_hover b)
      else (let (handled, view) = base.on_mouse_pressed event b.view in
          (handled, record b { view = view }))

  unfoldable pub on_mouse_dragged : MouseEvent → Button → Bool × Button
  on_mouse_dragged event b =
      let (handled, view) = base.on_mouse_dragged event b.view in
      (handled, record b { view = view })

  unfoldable pub on_mouse_entered : MouseEvent → Button → Button
  on_mouse_entered event b =
      if not (is_disabled b.view.state) && is_shift_or_control_down event
      then record b { view = base.set_state b.view normal }
      else record b { view = base.on_mouse_entered event b.view }

  unfoldable pub on_mouse_exited : MouseEvent → Button → Button
  unfolding exit_dormant_period
  on_mouse_exited event b =
      let b' = exit_dormant_period b in record b' { view = base.on_mouse_exited event b'.view }

  unfoldable pub on_mouse_moved : MouseEvent → Button → Button
  on_mouse_moved event b =
      if not (is_disabled b.view.state) && is_shift_or_control_down event
      then record b { view = base.set_state b.view normal }
      else record b { view = base.on_mouse_moved event b.view }

  unfoldable pub on_bounds_changed : Surroundings → Button → Button
  unfolding update_enabled_for_mute_toggle
  on_bounds_changed env b = update_enabled_for_mute_toggle env b

  -- The answer of `ViewTargeterDelegate::DoesIntersectRect` comes in.
  unfoldable pub does_intersect_rect : Bool → Button → Bool
  does_intersect_rect intersects b = b.view.enabled && intersects

  unfoldable pub notify_click : Surroundings → Button → Button
  unfolding enter_dormant_period transition_to_alert_state
  notify_click env b =
      let b₁ = enter_dormant_period b in
      call toggle_tab_audio_mute (
        transition_to_alert_state env
          (if same_state b₁.alert_state (some audio_playing)
            then some audio_muting
            else some audio_playing)
          b₁)

  unfoldable pub is_triggerable_event : Surroundings → Event → Button → Bool
  is_triggerable_event env (mouse m) b =
      if b.is_dormant || not m.only_left_mouse_button || is_shift_or_control_down m
      then false
      else base.is_triggerable_event (mouse m) b.view
  is_triggerable_event env gesture b =
      if b.is_dormant
        || (not env.is_active
            && ltb env.selectable_width (env.width * min_gesture_selectable_area_percent / 100))
      then false
      else base.is_triggerable_event gesture b.view
  is_triggerable_event env other_event b =
      if b.is_dormant then false else base.is_triggerable_event other_event b.view

  -- The button state whose image is painted.
  unfoldable pub image_to_paint : Button → ButtonState
  image_to_paint b = if b.is_dormant then normal else base.image_state b.view
