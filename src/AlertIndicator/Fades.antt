-- ===== src/AlertIndicator/Fades.antt =====
-- The life of a button as the calls that views and the tab make of it, and what each keeps.
use dumb_browser.Base.{
  ℕ, ◌≡◌, refl, subst, sym, ◌∙◌, ap, Bool, false, Option, none, some, Bool-cases, Option-cases, inl,
  inr, arith,
}
use dumb_browser.AlertIndicator.Images.{
  TabAlertState, is_audio, reset_images, same_state, toggles_audio,
}
use dumb_browser.AlertIndicator.View.{ButtonBase, ButtonView}
use package.dumb_browser.AlertIndicator.{
  Button, FadeAnimation, create_fade_animation, Surroundings, announce_change, new_button,
  enter_dormant_period, exit_dormant_period, animation_ended, update_enabled_for_mute_toggle,
  change_alert_state, transition_to_alert_state, on_parent_tab_button_color_changed,
}

-- What is shown: the state of the tab, as soon as there is one, with the images of that state; and
-- the state of the tab in any case when nothing fades. What fades was made for the state of the tab.
pub record ShowsState (b : Button) : Type 0 where
  pub shown : (a : TabAlertState) → b.alert_state ≡ some a → b.showing_alert_state ≡ some a
  pub pictured :
      (a : TabAlertState)
      → b.showing_alert_state ≡ some a
      → (touch_ui : Bool) × (color : ℕ) × (b.images ≡ some (reset_images touch_ui color a))
  pub settled : b.fade_animation ≡ none → b.showing_alert_state ≡ b.alert_state
  pub fading :
      (f : FadeAnimation) → b.fade_animation ≡ some f → f ≡ create_fade_animation b.alert_state

-- The four fields that this is about.
pub record SameShow (b c : Button) : Type 0 where
  pub same_alert : c.alert_state ≡ b.alert_state
  pub same_showing : c.showing_alert_state ≡ b.showing_alert_state
  pub same_fade : c.fade_animation ≡ b.fade_animation
  pub same_images : c.images ≡ b.images

SameShow-trans : {b c d : Button} → SameShow b c → SameShow c d → SameShow b d
SameShow-trans p q = record {
  same_alert = q.same_alert ∙ p.same_alert;
  same_showing = q.same_showing ∙ p.same_showing;
  same_fade = q.same_fade ∙ p.same_fade;
  same_images = q.same_images ∙ p.same_images;
}

pub SameShow-ShowsState : (b c : Button) → SameShow b c → ShowsState b → ShowsState c
SameShow-ShowsState b c same s = record {
  shown = λ a e. same.same_showing ∙ s.shown a (sym same.same_alert ∙ e);
  pictured = λ a e.
      let (touch, color, p) = s.pictured a (sym same.same_showing ∙ e) in
      (touch, color, same.same_images ∙ p);
  settled = λ e. same.same_showing ∙ s.settled (sym same.same_fade ∙ e) ∙ sym same.same_alert;
  fading = λ f e.
      s.fading f (sym same.same_fade ∙ e) ∙ ap (λ a. create_fade_animation a) (sym same.same_alert);
}

pub new_button-ShowsState : (view : ButtonView) → ShowsState (new_button view)
unfolding new_button
new_button-ShowsState view = record {
  shown = λ a e. e;
  pictured = λ a e. cc;
  settled = λ e. refl;
  fading = λ f e. cc;
}

pub animation_ended-ShowsState : (b : Button) → ShowsState b → ShowsState (animation_ended b)
unfolding animation_ended
animation_ended-ShowsState b s = record {
  shown = λ a e. e;
  pictured = λ a e. s.pictured a (s.shown a e);
  settled = λ e. refl;
  fading = s.fading;
}

pub enter_dormant-SameShow : (b : Button) → SameShow b (enter_dormant_period b)
unfolding enter_dormant_period
enter_dormant-SameShow b = record {
  same_alert = refl;
  same_showing = refl;
  same_fade = refl;
  same_images = refl;
}

pub exit_dormant-SameShow : (b : Button) → SameShow b (exit_dormant_period b)
unfolding exit_dormant_period
exit_dormant-SameShow b = record {
  same_alert = ground arith;
  same_showing = ground arith;
  same_fade = ground arith;
  same_images = ground arith;
}

pub announce_change-SameShow :
    (previous : Option TabAlertState) (b : Button) → SameShow b (announce_change previous b)
unfolding announce_change
announce_change-SameShow previous b = record {
  same_alert = ground arith;
  same_showing = ground arith;
  same_fade = ground arith;
  same_images = ground arith;
}

module _ (base : ButtonBase) (env : Surroundings) where
  pub update_enabled-SameShow :
      (b : Button) → SameShow b (update_enabled_for_mute_toggle base env b)
  unfolding update_enabled_for_mute_toggle exit_dormant_period enter_dormant_period
  update_enabled-SameShow b = record {
    same_alert = ground arith;
    same_showing = ground arith;
    same_fade = ground arith;
    same_images = ground arith;
  }

  change_alert_state-ShowsState :
      (next : Option TabAlertState) (b : Button)
      → ShowsState b
      → ShowsState (change_alert_state base env next b)
  unfolding change_alert_state
  change_alert_state-ShowsState none b s = record {
    shown = λ a h. ground arith;
    pictured = λ a h. elim (Bool-cases (toggles_audio b.alert_state none)) [
      | inl e ↦ ground arith
      | inr e ↦
          let (touch, color, p) = s.pictured a (s.shown a (ground arith)) in
          (touch, color, ground arith)
    ];
    settled = λ h. ground arith;
    fading = λ f h. ground arith;
  }
  change_alert_state-ShowsState (some n) b s = record {
    shown = λ a h. ground arith;
    pictured = λ a h. (env.touch_ui, env.alert_indicator_color n, ground arith);
    settled = λ h. ground arith;
    fading = λ f h. ground arith;
  }

  pub transition_to_alert_state-SameShow :
      (next : Option TabAlertState) (b : Button)
      → same_state next b.alert_state ≡ false
      → SameShow (change_alert_state base env next b) (transition_to_alert_state base env next b)
  unfolding transition_to_alert_state
  transition_to_alert_state-SameShow next b e =
      let changed = change_alert_state base env next b in
      let announced = announce_change b.showing_alert_state changed in
      subst (λ c. SameShow changed c) (ground arith)
        (SameShow-trans (announce_change-SameShow b.showing_alert_state changed)
          (update_enabled-SameShow announced))

  pub transition_to_alert_state-ShowsState :
      (next : Option TabAlertState) (b : Button)
      → ShowsState b
      → ShowsState (transition_to_alert_state base env next b)
  unfolding transition_to_alert_state
  transition_to_alert_state-ShowsState next b s =
      elim (Bool-cases (same_state next b.alert_state)) [
        | inl e ↦ subst (λ c. ShowsState c) (ground arith) s
        | inr e ↦
            SameShow-ShowsState (change_alert_state base env next b) _
              (transition_to_alert_state-SameShow next b e) (change_alert_state-ShowsState next b s)
      ]

  redrawn-ShowsState :
      (n : TabAlertState) (b : Button)
      → b.alert_state ≡ some n
      → ShowsState b
      → ShowsState
          (record b { images = some (reset_images env.touch_ui (env.alert_indicator_color n) n) })
  redrawn-ShowsState n b e s = record {
    shown = s.shown;
    pictured = λ a h. let same = s.shown n e in (env.touch_ui, env.alert_indicator_color n, cc);
    settled = s.settled;
    fading = s.fading;
  }

  pub on_parent_tab_button_color_changed-ShowsState :
      (b : Button) → ShowsState b → ShowsState (on_parent_tab_button_color_changed base env b)
  unfolding on_parent_tab_button_color_changed
  on_parent_tab_button_color_changed-ShowsState b s = elim (Option-cases b.alert_state) [
    | inl e ↦ subst (λ c. ShowsState c) (ground arith) s
    | inr (n, e) ↦ elim (Bool-cases (is_audio n)) [
      | inr q ↦ subst (λ c. ShowsState c) (ground arith) s
      | inl q ↦ subst (λ c. ShowsState c) (ground arith) (redrawn-ShowsState n b e s)
    ]
  ]
