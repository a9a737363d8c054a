-- ===== src/AlertIndicator/Life.antt =====
-- The life of a button: the calls that views and the tab make of it, in any order.
use dumb_browser.Base.{◌≡◌, true, Option}
use dumb_browser.AlertIndicator.Images.{TabAlertState}
use dumb_browser.AlertIndicator.View.{ButtonBase, ButtonView, MouseEvent}
use package.dumb_browser.AlertIndicator.{
  Button, Surroundings, new_button, exit_dormant_period, animation_ended,
  update_enabled_for_mute_toggle, transition_to_alert_state, on_parent_tab_button_color_changed,
  on_mouse_pressed, on_mouse_dragged, on_mouse_entered, on_mouse_exited, on_mouse_moved,
  on_bounds_changed, notify_click,
}

-- One call. The wake-up timer may fire at any time: when it is not set, that changes nothing. Views
-- click a button only when it is enabled.
pub data Step (base : ButtonBase) : Button → Button → Type 0 where
  transitions :
      (env : Surroundings) (next : Option TabAlertState) (b : Button)
      → Step base b (transition_to_alert_state base env next b)
  animation_ends : (b : Button) → Step base b (animation_ended b)
  color_changes :
      (env : Surroundings) (b : Button)
      → Step base b (on_parent_tab_button_color_changed base env b)
  wakes_up : (b : Button) → Step base b (exit_dormant_period b)
  bounds_change : (env : Surroundings) (b : Button) → Step base b (on_bounds_changed base env b)
  updates :
      (env : Surroundings) (b : Button) → Step base b (update_enabled_for_mute_toggle base env b)
  is_pressed : (m : MouseEvent) (b : Button) → Step base b (on_mouse_pressed base m b).1
  is_dragged : (m : MouseEvent) (b : Button) → Step base b (on_mouse_dragged base m b).1
  is_entered : (m : MouseEvent) (b : Button) → Step base b (on_mouse_entered base m b)
  is_exited : (m : MouseEvent) (b : Button) → Step base b (on_mouse_exited base m b)
  is_moved : (m : MouseEvent) (b : Button) → Step base b (on_mouse_moved base m b)
  is_clicked :
      (env : Surroundings) (b : Button)
      → b.view.enabled ≡ true
      → Step base b (notify_click base env b)

pub data Reachable (base : ButtonBase) : Button → Type 0 where
  starts : (view : ButtonView) → Reachable base (new_button view)
  goes_on : (b c : Button) → Reachable base b → Step base b c → Reachable base c
