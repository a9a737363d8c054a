-- ===== src/AlertIndicator/Painting.antt =====
-- How the icon fades, of dumb/browser/ui/views/tabs/alert_indicator_button.cc: the parts of the
-- animations, the throb of TabRecordingIndicatorAnimation, and PaintButtonContents. The `double`s
-- of an opacity are a parameter, and gfx::MultiAnimation is what it answers: the index of its
-- current part, and its value in it.
pub mod Throb
use dumb_browser.Base.{
  ℕ, zero, suc, ◌+◌, ◌%◌, ◌==◌, Bool, not, Option, none, some, List, [], ◌∷◌, if◌then◌else◌,
  is_none,
}
use package.dumb_browser.AlertIndicator.{Button, FadeAnimation, recording, fade_in, fade_out}

-- A `double` that is an opacity, with `1.0 - x` and `x < 1.0`.
pub record Opacities : Type 1 where
  pub Opacity : Type 0
  pub zero_opacity : Opacity
  pub half_opacity : Opacity
  pub one_opacity : Opacity
  pub from_one : Opacity → Opacity
  pub is_below_one : Opacity → Bool

-- What MultiAnimation answers.
pub record Progress (o : Opacities) : Type 0 where
  pub current_part_index : ℕ
  pub current_value : o.Opacity

pub data CanvasCall (o : Opacities) : Type 0 where
  save_layer_alpha : o.Opacity → CanvasCall o
  paint_contents restore : CanvasCall o

-- The durations, in milliseconds.
abbrev pub indicator_fade_in_duration : ℕ
indicator_fade_in_duration = 200

abbrev pub indicator_fade_out_duration : ℕ
indicator_fade_out_duration = 1000

abbrev pub indicator_frame_interval : ℕ
indicator_frame_interval = 50

abbrev pub capture_indicator_throb_cycles : ℕ
capture_indicator_throb_cycles = 5

-- The loop from `i` on, with so many cycles left.
unfoldable pub throb_parts : ℕ → ℕ → List ℕ
throb_parts zero i = []
throb_parts (suc left) i =
    (if i % 2 == 0 then indicator_fade_in_duration else indicator_fade_out_duration)
    ∷ throb_parts left (i + 1)

unfoldable pub animation_parts : FadeAnimation → List ℕ
unfolding throb_parts
animation_parts recording = throb_parts capture_indicator_throb_cycles 0
animation_parts fade_in = indicator_fade_in_duration ∷ []
animation_parts fade_out = indicator_fade_out_duration ∷ []

module _ (o : Opacities) where
  -- `GetCurrentValue` of an animation, virtual for the recording one.
  unfoldable pub get_current_value : FadeAnimation → Progress o → o.Opacity
  get_current_value recording p =
      if not (p.current_part_index % 2 == 0) then o.from_one p.current_value else p.current_value
  get_current_value _ p = p.current_value

  unfoldable pub opaqueness : Button → Progress o → o.Opacity
  unfolding get_current_value
  opaqueness b p = elim b.fade_animation [
    | some fade ↦
        let value = get_current_value fade p in
        if is_none b.alert_state then o.from_one value else value
    | none ↦ if b.is_dormant then o.half_opacity else o.one_opacity
  ]

  unfoldable pub paint_button_contents : Button → Progress o → List (CanvasCall o)
  unfolding opaqueness
  paint_button_contents b p =
      let value = opaqueness b p in
      if o.is_below_one value
      then save_layer_alpha value ∷ paint_contents ∷ restore ∷ []
      else paint_contents ∷ []
