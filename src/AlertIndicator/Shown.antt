-- ===== src/AlertIndicator/Shown.antt =====
-- What an `AlertIndicatorButton` of dumb/browser/ui/views/tabs/alert_indicator_button.cc shows, over
-- all the calls of its life.
use dumb_browser.Base.{
  ◌≡◌, refl, Bool, Bool-cases, inl, inr, sym, ◌∙◌, false, not, Option, some, if◌then◌else◌, arith,
}
use dumb_browser.AlertIndicator.Images.{
  TabAlertState, same_state, toggles_audio, audio_playing, audio_muting,
}
use dumb_browser.AlertIndicator.View.{ButtonBase}
use package.dumb_browser.AlertIndicator.{
  Button, Surroundings, change_alert_state, new_button, enter_dormant_period, exit_dormant_period,
  animation_ended, transition_to_alert_state, on_parent_tab_button_color_changed, on_mouse_pressed,
  on_mouse_dragged, on_mouse_entered, on_mouse_exited, on_mouse_moved, on_bounds_changed,
  notify_click,
}
use dumb_browser.AlertIndicator.Fades
use package.dumb_browser.AlertIndicator.Life.{
  Step, transitions, animation_ends, color_changes, wakes_up, bounds_change, updates, is_pressed,
  is_dragged, is_entered, is_exited, is_moved, is_clicked, Reachable, starts, goes_on,
}

-- Whether a fade is under way once the tab has changed to a state: a change to another state starts
-- one, but for the changes between the two states of audio, which end it.
abbrev pub fades_after : Option TabAlertState → Button → Bool → Bool
fades_after next b fading =
    if same_state next b.alert_state then fading else not (toggles_audio b.alert_state next)

-- The state that a click goes to.
abbrev pub clicked_state : Button → Option TabAlertState
clicked_state b =
    if same_state b.alert_state (some audio_playing) then some audio_muting else some audio_playing

same :
    (b c : Button)
    → c.alert_state ≡ b.alert_state
    → c.showing_alert_state ≡ b.showing_alert_state
    → c.fade_animation ≡ b.fade_animation
    → c.images ≡ b.images
    → Fades.ShowsState b
    → Fades.ShowsState c
same b c p q r i =
    Fades.SameShow-ShowsState b c
      (record { same_alert = p; same_showing = q; same_fade = r; same_images = i })

module _ (base : ButtonBase) where
  Step-ShowsState : {b c : Button} → Step base b c → Fades.ShowsState b → Fades.ShowsState c
  unfolding on_mouse_pressed on_mouse_dragged on_mouse_entered on_mouse_exited on_mouse_moved
      exit_dormant_period enter_dormant_period on_bounds_changed notify_click
  Step-ShowsState (transitions env next b) s =
      Fades.transition_to_alert_state-ShowsState base env next b s
  Step-ShowsState (animation_ends b) s = Fades.animation_ended-ShowsState b s
  Step-ShowsState (color_changes env b) s =
      Fades.on_parent_tab_button_color_changed-ShowsState base env b s
  Step-ShowsState (wakes_up b) s = Fades.SameShow-ShowsState b _ (Fades.exit_dormant-SameShow b) s
  Step-ShowsState (bounds_change env b) s =
      Fades.SameShow-ShowsState b _ (Fades.update_enabled-SameShow base env b) s
  Step-ShowsState (updates env b) s =
      Fades.SameShow-ShowsState b _ (Fades.update_enabled-SameShow base env b) s
  Step-ShowsState (is_pressed m b) s =
      same b _ (ground arith) (ground arith) (ground arith) (ground arith) s
  Step-ShowsState (is_dragged m b) s = same b _ refl refl refl refl s
  Step-ShowsState (is_entered m b) s =
      same b _ (ground arith) (ground arith) (ground arith) (ground arith) s
  Step-ShowsState (is_exited m b) s =
      same b _ (ground arith) (ground arith) (ground arith) (ground arith) s
  Step-ShowsState (is_moved m b) s =
      same b _ (ground arith) (ground arith) (ground arith) (ground arith) s
  Step-ShowsState (is_clicked env b on) s =
      let b₁ = enter_dormant_period b in
      same _ _ refl refl refl refl (
        Fades.transition_to_alert_state-ShowsState base env _ b₁
          (Fades.SameShow-ShowsState b b₁ (Fades.enter_dormant-SameShow b) s))

  -- Whether the fade that runs last is still under way, after a step.
  abbrev pub fades_after_step : {b c : Button} → Step base b c → Bool → Bool
  fades_after_step (transitions env next b) fading = fades_after next b fading
  fades_after_step (animation_ends b) fading = false
  fades_after_step (is_clicked env b on) fading = fades_after (clicked_state b) b fading
  fades_after_step _ fading = fading

  -- The same, after all the steps since the button was made.
  abbrev pub is_fading : (b : Button) → Reachable base b → Bool
  is_fading _ (starts view) = false
  is_fading _ (goes_on b c before step) = fades_after_step step (is_fading b before)

  abbrev IsSettled : Bool → Button → Type 0
  IsSettled fading b = fading ≡ false → b.showing_alert_state ≡ b.alert_state

  transition_to_alert_state-IsSettled :
      (env : Surroundings) (next : Option TabAlertState) (b : Button) (fading : Bool)
      → IsSettled fading b
      → IsSettled (fades_after next b fading) (transition_to_alert_state base env next b)
  unfolding change_alert_state transition_to_alert_state
  transition_to_alert_state-IsSettled env next b fading s h =
      elim (Bool-cases (same_state next b.alert_state)) [
        | inl e ↦ ground (arith, s (ground (arith, h)))
        | inr e ↦
            let same = Fades.transition_to_alert_state-SameShow base env next b e in
            same.same_showing ∙ ground (arith, h) ∙ sym same.same_alert
      ]

  -- What a step does not change stays settled.
  SameShow-IsSettled :
      {b c : Button} (fading : Bool) → Fades.SameShow b c → IsSettled fading b → IsSettled fading c
  SameShow-IsSettled fading same s h = same.same_showing ∙ s h ∙ sym same.same_alert

  Step-IsSettled :
      {b c : Button} (fading : Bool) (step : Step base b c)
      → IsSettled fading b
      → IsSettled (fades_after_step step fading) c
  unfolding on_mouse_pressed on_mouse_dragged on_mouse_entered on_mouse_exited on_mouse_moved
      exit_dormant_period enter_dormant_period on_bounds_changed notify_click animation_ended
      on_parent_tab_button_color_changed
  Step-IsSettled fading (transitions env next b) s =
      transition_to_alert_state-IsSettled env next b fading s
  Step-IsSettled fading (animation_ends b) s = λ h. refl
  Step-IsSettled fading (color_changes env b) s = λ h. ground (arith, s h)
  Step-IsSettled fading (wakes_up b) s = SameShow-IsSettled fading (Fades.exit_dormant-SameShow b) s
  Step-IsSettled fading (bounds_change env b) s =
      SameShow-IsSettled fading (Fades.update_enabled-SameShow base env b) s
  Step-IsSettled fading (updates env b) s =
      SameShow-IsSettled fading (Fades.update_enabled-SameShow base env b) s
  Step-IsSettled fading (is_pressed m b) s = λ h. ground (arith, s h)
  Step-IsSettled fading (is_dragged m b) s = s
  Step-IsSettled fading (is_entered m b) s = λ h. ground (arith, s h)
  Step-IsSettled fading (is_exited m b) s = λ h. ground (arith, s h)
  Step-IsSettled fading (is_moved m b) s = λ h. ground (arith, s h)
  Step-IsSettled fading (is_clicked env b on) s =
      transition_to_alert_state-IsSettled env (clicked_state b) (enter_dormant_period b) fading s

  -- However the tab changes its state and the user moves and clicks: a button shows the state of
  -- its tab as soon as there is one, with the images of that state, and what fades was made for
  -- that state. It shows the state of its tab in any case, so nothing if the tab has none, when no
  -- animation is set, and also when the fade that was started last has ended, by AnimationEnded or
  -- by a change between the two states of audio.
  pub Reachable-Shown :
      (b : Button) (reached : Reachable base b)
      → Fades.ShowsState b × (is_fading b reached ≡ false → b.showing_alert_state ≡ b.alert_state)
  unfolding new_button
  Reachable-Shown _ (starts view) = (Fades.new_button-ShowsState view, λ h. refl)
  Reachable-Shown _ (goes_on b c before step) =
      let (shows, settled) = Reachable-Shown b before in
      (Step-ShowsState step shows, Step-IsSettled (is_fading b before) step settled)
