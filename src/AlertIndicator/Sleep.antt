-- ===== src/AlertIndicator/Sleep.antt =====
-- The time after a click in which the button takes no other.
use dumb_browser.Base.{
  ◌≡◌, refl, subst, ◌∙◌, true, false, Option, Bool-cases, inl, inr, arith, ◌*◌, ◌/◌, ◌≤◌, ◌⊎◌, ◌↔◌,
}
use dumb_browser.AlertIndicator.Images.{TabAlertState, same_state}
use dumb_browser.AlertIndicator.View.{
  ButtonBase, SetsEnabled, Event, gesture, mouse, MouseEvent, other_event, is_shift_or_control_down,
  normal,
}
use package.dumb_browser.AlertIndicator.{
  Button, Surroundings, announce_change, enter_dormant_period, exit_dormant_period, should_enable,
  update_enabled_for_mute_toggle, change_alert_state, transition_to_alert_state, on_mouse_exited,
  notify_click, is_triggerable_event, min_gesture_selectable_area_percent, image_to_paint,
}

abbrev pub SleepsIfEnabled : Button → Type 0
SleepsIfEnabled b = b.view.enabled ≡ true → b.is_dormant ≡ true

-- No modifier key and no second mouse button; and for a touch, an active or a wide tab.
abbrev pub IsDeliberate : Surroundings → Event → Type 0
IsDeliberate env (mouse m) =
    (m.only_left_mouse_button ≡ true) × (m.shift_down ≡ false) × (m.control_down ≡ false)
IsDeliberate env gesture =
    (env.is_active ≡ true)
    ⊎ (env.width * min_gesture_selectable_area_percent / 100 ≤ env.selectable_width)
IsDeliberate env other_event = true ≡ true

module _ (base : ButtonBase) where
  changed-is_dormant :
      (env : Surroundings) (next : Option TabAlertState) (b : Button)
      → (announce_change b.showing_alert_state (change_alert_state base env next b)).is_dormant
        ≡ b.is_dormant
  unfolding change_alert_state announce_change
  changed-is_dormant env next b = ground arith

  update_enabled-is_dormant :
      (env : Surroundings) (b : Button)
      → SetsEnabled base
      → b.is_dormant ≡ true
      → SleepsIfEnabled (update_enabled_for_mute_toggle base env b)
  unfolding update_enabled_for_mute_toggle enter_dormant_period exit_dormant_period
  update_enabled-is_dormant env b laws e on =
      ground (arith, laws.enabled-set_enabled b.view (should_enable base env b.alert_state))

  transition-is_dormant :
      (env : Surroundings) (next : Option TabAlertState) (b : Button)
      → SetsEnabled base
      → b.is_dormant ≡ true
      → SleepsIfEnabled (transition_to_alert_state base env next b)
  unfolding transition_to_alert_state
  transition-is_dormant env next b laws e =
      let changed = change_alert_state base env next b in
      let announced = announce_change b.showing_alert_state changed in
      elim (Bool-cases (same_state next b.alert_state)) [
        | inl h ↦ λ on. ground arith
        | inr h ↦
            subst SleepsIfEnabled {x = update_enabled_for_mute_toggle base env announced}
              {y = transition_to_alert_state base env next b} (ground arith)
              (update_enabled-is_dormant env announced laws (changed-is_dormant env next b ∙ e))
      ]

  asleep :
      (env : Surroundings) (event : Event) (b : Button)
      → b.is_dormant ≡ true
      → (is_triggerable_event base env event b ≡ false) × (image_to_paint base b ≡ normal)
  unfolding is_triggerable_event image_to_paint
  asleep env (mouse m) b e = (ground arith, ground arith)
  asleep env gesture b e = (ground arith, ground arith)
  asleep env other_event b e = (ground arith, ground arith)

  awake :
      (env : Surroundings) (event : Event) (b : Button)
      → b.is_dormant ≡ false
      → (is_triggerable_event base env event b ≡ true)
        ↔ (IsDeliberate env event × (base.is_triggerable_event event b.view ≡ true))
  unfolding is_triggerable_event is_shift_or_control_down
  awake env (mouse m) b e = (λ h. ground arith, λ h. ground arith)
  awake env gesture b e = (λ h. ground arith, λ h. ground arith)
  awake env other_event b e = (λ h. ground arith, λ h. ground arith)

  on_mouse_exited-is_dormant :
      (m : MouseEvent) (b : Button) → (on_mouse_exited base m b).is_dormant ≡ false
  unfolding on_mouse_exited exit_dormant_period
  on_mouse_exited-is_dormant m b = ground arith

  -- In a view whose SetEnabled does what is documented, a click that leaves the button enabled
  -- makes it dormant: no event, whatever it is and wherever the tab stands by then, triggers the
  -- button that the click leaves, and it paints its normal image. If the mouse leaves then, it is
  -- awake, and an event triggers it exactly if it is deliberate and triggers any button of that
  -- view.
  pub notify_click-is_triggerable_event :
      SetsEnabled base
      → (env later : Surroundings) (b : Button) (event : Event) (m : MouseEvent)
      → (notify_click base env b).view.enabled ≡ true
      → let c = notify_click base env b in
        let d = on_mouse_exited base m c in
        (is_triggerable_event base later event c ≡ false)
        × (image_to_paint base c ≡ normal)
        × ((is_triggerable_event base later event d ≡ true)
            ↔ (IsDeliberate later event × (base.is_triggerable_event event d.view ≡ true)))
  unfolding notify_click enter_dormant_period
  notify_click-is_triggerable_event laws env later b event m on =
      let sleeping =
        asleep later event (notify_click base env b)
          (transition-is_dormant env _ (enter_dormant_period b) laws refl on) in
      (
        sleeping.0,
        sleeping.1,
        awake later event (on_mouse_exited base m (notify_click base env b))
            (on_mouse_exited-is_dormant m (notify_click base env b)),
      )
