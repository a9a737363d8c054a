-- ===== src/AlertIndicator/Painting/Throb.antt =====
-- How a fade goes, in dumb/browser/ui/views/tabs/alert_indicator_button.cc.
use dumb_browser.Base.{
  ℕ, ◌+◌, ◌<◌, ◌%◌, ◌==◌, ◌≡◌, refl, ap, ◌∙◌, not, some, if◌then◌else◌, is_some, length, ltb,
  Option-cases, inl, inr, arith,
}
use dumb_browser.AlertIndicator.{Button, FadeAnimation, recording, fade_in, fade_out}
use package.dumb_browser.AlertIndicator.Painting.{
  Opacities, Progress, animation_parts, throb_parts, get_current_value, opaqueness,
}

-- What `double` gives for 1.0 - 0.0 and 1.0 - 1.0.
pub record IsExact (o : Opacities) : Type 0 where
  pub from_zero : o.from_one o.zero_opacity ≡ o.one_opacity
  pub from_whole : o.from_one o.one_opacity ≡ o.zero_opacity

abbrev pub at : (o : Opacities) → ℕ → o.Opacity → Progress o
at o part value = record { current_part_index = part; current_value = value }

module _ (o : Opacities) (exact : IsExact o) where
  parity_suc : (i : ℕ) → (i % 2 == 0) ≡ not ((i + 1) % 2 == 0)
  parity_suc i = ground arith

  get_current_value_end :
      (f : FadeAnimation) (i : ℕ)
      → i < length (animation_parts f)
      → get_current_value o f (at o i o.one_opacity) ≡ (
          if ltb (i + 1) (length (animation_parts f))
          then get_current_value o f (at o (i + 1) o.zero_opacity)
          else o.one_opacity)
  unfolding get_current_value animation_parts throb_parts
  get_current_value_end recording i lt =
      ground (arith, exact.from_zero, exact.from_whole, parity_suc i)
  get_current_value_end fade_in i lt = ground arith
  get_current_value_end fade_out i lt = ground arith

  get_current_value_start :
      (f : FadeAnimation) → get_current_value o f (at o 0 o.zero_opacity) ≡ o.zero_opacity
  unfolding get_current_value
  get_current_value_start recording = refl
  get_current_value_start fade_in = refl
  get_current_value_start fade_out = refl

  -- While a button fades, and if 1.0 - 0.0 and 1.0 - 1.0 are exact: the icon starts out invisible
  -- if the tab has a state and opaque if it has none; wherever one part of the animation ends, the
  -- next one starts at the same opacity; and the last part ends opaque if the tab has a state and
  -- invisible if it has none, also after the throb of the recording animation.
  pub opaqueness_lem :
      (b : Button) (f : FadeAnimation) (i : ℕ)
      → b.fade_animation ≡ some f
      → i < length (animation_parts f)
      → (opaqueness o b (at o 0 o.zero_opacity)
          ≡ (if is_some b.alert_state then o.zero_opacity else o.one_opacity))
        × (opaqueness o b (at o i o.one_opacity) ≡ (
            if ltb (i + 1) (length (animation_parts f))
            then opaqueness o b (at o (i + 1) o.zero_opacity)
            else if is_some b.alert_state
            then o.one_opacity
            else o.zero_opacity))
  unfolding opaqueness
  opaqueness_lem b f i e lt =
      let end = get_current_value_end f i lt in
      let start = get_current_value_start f in
      elim (Option-cases b.alert_state) [
        | inl n ↦
            rw (e, n)
              (
                ap o.from_one start ∙ exact.from_zero,
                ground (arith, end, ap o.from_one end, exact.from_whole),
              )
        | inr (a, n) ↦ rw (e, n) (start, end)
      ]
