-- ===== src/AlertIndicator/Clicks.antt =====
-- When the button can be clicked, and what a click does.
use dumb_browser.Base.{
  ◌≡◌, refl, subst, sym, ◌∙◌, true, false, Option, none, some, List, [], ◌∷◌, ◌++◌, if◌then◌else◌,
  Bool-cases, inl, inr, ◌⊎◌, arith, ◌*◌, ◌/◌, ◌≤◌, ◌↔◌,
}
use dumb_browser.AlertIndicator.Images.{
  TabAlertState, same_state, toggles_audio, audio_playing, audio_muting, reset_images,
}
use dumb_browser.AlertIndicator.View.{ButtonBase, SetsEnabled, normal}
use package.dumb_browser.AlertIndicator.{
  Button, Surroundings, Call, is_audio_state, min_mouse_selectable_area_percent,
  toggle_tab_audio_mute, announce_change, new_button, enter_dormant_period, exit_dormant_period,
  animation_ended, should_enable, update_enabled_for_mute_toggle, change_alert_state,
  transition_to_alert_state, on_parent_tab_button_color_changed, on_mouse_pressed, on_mouse_dragged,
  on_mouse_entered, on_mouse_exited, on_mouse_moved, on_bounds_changed, notify_click,
}
use dumb_browser.AlertIndicator.Fades.{SameShow, announce_change-SameShow, update_enabled-SameShow}
use dumb_browser.AlertIndicator.Life.{
  Step, transitions, animation_ends, color_changes, bounds_change, wakes_up, updates, is_pressed,
  is_dragged, is_entered, is_exited, is_moved, is_clicked, Reachable, starts, goes_on,
}

-- A button that sleeps after a click could be clicked.
abbrev pub SleepsEnabled : Button → Type 0
SleepsEnabled b = b.is_dormant ≡ true → b.view.enabled ≡ true

-- When a tab can be muted by its button.
abbrev pub CanMute : Surroundings → Option TabAlertState → Type 0
CanMute env alert_state =
    (env.mute_controls_enabled ≡ true)
    × ((alert_state ≡ some audio_playing) ⊎ (alert_state ≡ some audio_muting))
    × ((env.is_active ≡ true)
        ⊎ (env.width * min_mouse_selectable_area_percent / 100 ≤ env.selectable_width))

-- The five things that hold of a button once it has toggled to a state.
abbrev pub Toggled : Surroundings → TabAlertState → Button → Type 0
Toggled env next c =
    (c.alert_state ≡ some next)
    × (c.showing_alert_state ≡ some next)
    × (c.fade_animation ≡ none)
    × (c.images ≡ some (reset_images env.touch_ui (env.alert_indicator_color next) next))
    × ((c.view.enabled ≡ true) ↔ CanMute env (some next))

is_audio-cases :
    (o : Option TabAlertState)
    → (is_audio_state o ≡ true) ↔ ((o ≡ some audio_playing) ⊎ (o ≡ some audio_muting))
is_audio-cases none = (λ h. cc, λ h. ground arith)
is_audio-cases (some audio_playing) = (λ h. inl refl, λ h. refl)
is_audio-cases (some audio_muting) = (λ h. inr refl, λ h. refl)
is_audio-cases (some TabAlertState.media_recording) = (λ h. cc, λ h. ground arith)
is_audio-cases (some TabAlertState.tab_capturing) = (λ h. cc, λ h. ground arith)
is_audio-cases (some TabAlertState.bluetooth_connected) = (λ h. cc, λ h. ground arith)
is_audio-cases (some TabAlertState.bluetooth_scan_active) = (λ h. cc, λ h. ground arith)
is_audio-cases (some TabAlertState.usb_connected) = (λ h. cc, λ h. ground arith)
is_audio-cases (some TabAlertState.hid_connected) = (λ h. cc, λ h. ground arith)
is_audio-cases (some TabAlertState.serial_connected) = (λ h. cc, λ h. ground arith)
is_audio-cases (some TabAlertState.pip_playing) = (λ h. cc, λ h. ground arith)
is_audio-cases (some TabAlertState.desktop_capturing) = (λ h. cc, λ h. ground arith)
is_audio-cases (some TabAlertState.vr_presenting_in_headset) = (λ h. cc, λ h. ground arith)

module _ (base : ButtonBase) where
  should_enable-CanMute :
      (env : Surroundings) (o : Option TabAlertState)
      → (should_enable base env o ≡ true) ↔ CanMute env o
  should_enable-CanMute env o =
      let cases = is_audio-cases o in (λ h. ground arith, λ h. ground arith)

  changed-SleepsEnabled :
      (env : Surroundings) (next : Option TabAlertState) (b : Button)
      → SleepsEnabled b
      → SleepsEnabled (announce_change b.showing_alert_state (change_alert_state base env next b))
  unfolding change_alert_state announce_change
  changed-SleepsEnabled env next b s h = ground arith

  changed-alert_state :
      (env : Surroundings) (next : TabAlertState) (b : Button)
      → (change_alert_state base env (some next) b).alert_state ≡ some next
  unfolding change_alert_state
  changed-alert_state env next b = ground arith

  recolored-SleepsEnabled :
      (env : Surroundings) (b : Button)
      → SleepsEnabled b
      → SleepsEnabled (on_parent_tab_button_color_changed base env b)
  unfolding on_parent_tab_button_color_changed
  recolored-SleepsEnabled env b s h = ground arith

  module _ (laws : SetsEnabled base) where
    enabled-update_enabled :
        (env : Surroundings) (b : Button)
        → (update_enabled_for_mute_toggle base env b).view.enabled
          ≡ should_enable base env b.alert_state
    unfolding update_enabled_for_mute_toggle exit_dormant_period enter_dormant_period
    enabled-update_enabled env b =
        ground (arith, laws.enabled-set_enabled b.view (should_enable base env b.alert_state))

    update_enabled-SleepsEnabled :
        (env : Surroundings) (b : Button)
        → SleepsEnabled b
        → SleepsEnabled (update_enabled_for_mute_toggle base env b)
    unfolding update_enabled_for_mute_toggle exit_dormant_period enter_dormant_period
    update_enabled-SleepsEnabled env b s h =
        ground (arith, laws.enabled-set_enabled b.view (should_enable base env b.alert_state))

    -- In a view whose SetEnabled does what is documented, and whatever it was before, an updated
    -- button is enabled exactly if the switch for it is on, the tab plays or mutes audio, and the
    -- tab is active or wide enough; the tab's state is unchanged.
    pub update_enabled_for_mute_toggle_iff :
        (env : Surroundings) (b : Button)
        → (((update_enabled_for_mute_toggle base env b).view.enabled ≡ true)
            ↔ CanMute env b.alert_state)
          × ((update_enabled_for_mute_toggle base env b).alert_state ≡ b.alert_state)
    update_enabled_for_mute_toggle_iff env b =
        let iff = should_enable-CanMute env b.alert_state in
        let same = enabled-update_enabled env b in
        (
          (λ h. iff.0 (sym same ∙ h), λ h. same ∙ iff.1 h),
          SameShow.same_alert (update_enabled-SameShow base env b),
        )

    transition-SleepsEnabled :
        (env : Surroundings) (next : Option TabAlertState) (b : Button)
        → SleepsEnabled b
        → SleepsEnabled (transition_to_alert_state base env next b)
    unfolding transition_to_alert_state
    transition-SleepsEnabled env next b s =
        let changed = change_alert_state base env next b in
        let announced = announce_change b.showing_alert_state changed in
        elim (Bool-cases (same_state next b.alert_state)) [
          | inl e ↦ λ h. ground arith
          | inr e ↦
              subst (λ c. SleepsEnabled c) {x = update_enabled_for_mute_toggle base env announced}
                {y = transition_to_alert_state base env next b} (ground arith)
                (update_enabled-SleepsEnabled env announced (changed-SleepsEnabled env next b s))
        ]

    Step-SleepsEnabled : {b c : Button} → Step base b c → SleepsEnabled b → SleepsEnabled c
    unfolding on_mouse_pressed on_mouse_dragged on_mouse_entered on_mouse_exited on_mouse_moved
        exit_dormant_period enter_dormant_period on_bounds_changed notify_click animation_ended
        on_parent_tab_button_color_changed
    Step-SleepsEnabled (transitions env next b) s = transition-SleepsEnabled env next b s
    Step-SleepsEnabled (animation_ends b) s = s
    Step-SleepsEnabled (color_changes env b) s = recolored-SleepsEnabled env b s
    Step-SleepsEnabled (wakes_up b) s = λ h. ground arith
    Step-SleepsEnabled (bounds_change env b) s = update_enabled-SleepsEnabled env b s
    Step-SleepsEnabled (updates env b) s = update_enabled-SleepsEnabled env b s
    Step-SleepsEnabled (is_pressed m b) s = λ h.
        ground (arith, laws.enabled-set_state b.view normal, laws.enabled-on_mouse_pressed m b.view)
    Step-SleepsEnabled (is_dragged m b) s = λ h. laws.enabled-on_mouse_dragged m b.view ∙ s h
    Step-SleepsEnabled (is_entered m b) s = λ h.
        ground (arith, laws.enabled-set_state b.view normal, laws.enabled-on_mouse_entered m b.view)
    Step-SleepsEnabled (is_exited m b) s = λ h. ground arith
    Step-SleepsEnabled (is_moved m b) s = λ h.
        ground (arith, laws.enabled-set_state b.view normal, laws.enabled-on_mouse_moved m b.view)
    Step-SleepsEnabled (is_clicked env b on) s =
        transition-SleepsEnabled env _ (enter_dormant_period b) (λ h. on)

    -- In a view whose calls change what is enabled only as documented, and in whatever order the
    -- tab, the timer and the user act on it, a button that takes no clicks because it is dormant is
    -- enabled: a button that becomes disabled wakes up.
    pub Reachable-is_dormant :
        (b : Button) → Reachable base b → b.is_dormant ≡ true → b.view.enabled ≡ true
    unfolding new_button
    Reachable-is_dormant _ (starts view) h = cc
    Reachable-is_dormant _ (goes_on b c before step) h =
        Step-SleepsEnabled step (Reachable-is_dormant b before) h

    transition-Toggled :
        (env : Surroundings) (next : TabAlertState) (b : Button)
        → same_state (some next) b.alert_state ≡ false
        → toggles_audio b.alert_state (some next) ≡ true
        → Toggled env next (transition_to_alert_state base env (some next) b)
    unfolding transition_to_alert_state change_alert_state
    transition-Toggled env next b differs toggles =
        let changed = change_alert_state base env (some next) b in
        let announced = announce_change b.showing_alert_state changed in
        let same₁ = announce_change-SameShow b.showing_alert_state changed in
        let same₂ = update_enabled-SameShow base env announced in
        let iff = update_enabled_for_mute_toggle_iff env announced in
        let alert = same₁.same_alert ∙ changed-alert_state env next b in
        subst (Toggled env next) {x = update_enabled_for_mute_toggle base env announced}
          {y = transition_to_alert_state base env (some next) b} (ground arith)
          (
            same₂.same_alert ∙ alert,
            same₂.same_showing ∙ same₁.same_showing ∙ ground arith,
            same₂.same_fade ∙ same₁.same_fade ∙ ground arith,
            same₂.same_images ∙ same₁.same_images ∙ ground arith,
            subst
                (λ o.
                  ((update_enabled_for_mute_toggle base env announced).view.enabled ≡ true)
                  ↔ CanMute env o)
                alert iff.0,
          )

    -- In a view whose SetEnabled does what is documented, a click on a tab that plays or mutes
    -- audio shows the other of the two states at once and without a fade, with its images, leaves
    -- the button enabled exactly if the tab can be muted, and last of all asks the tab to change
    -- its mute state.
    pub notify_click_lem :
        (env : Surroundings) (b : Button) (now next : TabAlertState)
        → ((now ≡ audio_playing) × (next ≡ audio_muting))
          ⊎ ((now ≡ audio_muting) × (next ≡ audio_playing))
        → b.alert_state ≡ some now
        → let c = notify_click base env b in
          Toggled env next c
          × ((before : List Call) × (c.calls ≡ before ++ toggle_tab_audio_mute ∷ []))
    unfolding notify_click enter_dormant_period
    notify_click_lem env b now next pair e = (
      subst (λ t. Toggled env next (transition_to_alert_state base env t (enter_dormant_period b)))
          {x = some next}
          {y = if same_state b.alert_state (some audio_playing)
            then some audio_muting
            else some audio_playing}
          (ground arith)
          (transition-Toggled env next (enter_dormant_period b) (ground arith) (ground arith)),
      (_, refl),
    )
