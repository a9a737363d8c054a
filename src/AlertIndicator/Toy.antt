-- ===== src/AlertIndicator/Toy.antt =====
-- A small view to run buttons of dumb/browser/ui/views/tabs on: nothing but SetEnabled and SetState
-- changes it, and every event triggers it.
use dumb_browser.Base.{refl, true, false}
use dumb_browser.AlertIndicator.{Surroundings}
use dumb_browser.AlertIndicator.View.{ButtonBase, SetsEnabled}

abbrev pub toy : ButtonBase
toy = record {
  set_enabled = λ v e. record v { enabled = e };
  set_state = λ v s. record v { state = s };
  on_mouse_pressed = λ m v. (true, v);
  on_mouse_dragged = λ m v. (true, v);
  on_mouse_entered = λ m v. v;
  on_mouse_exited = λ m v. v;
  on_mouse_moved = λ m v. v;
  is_triggerable_event = λ e v. true;
  image_state = λ v. v.state;
}

pub toy-SetsEnabled : SetsEnabled toy
toy-SetsEnabled = record {
  enabled-set_enabled = λ v e. refl;
  enabled-set_state = λ v s. refl;
  enabled-on_mouse_pressed = λ m v. refl;
  enabled-on_mouse_dragged = λ m v. refl;
  enabled-on_mouse_entered = λ m v. refl;
  enabled-on_mouse_exited = λ m v. refl;
  enabled-on_mouse_moved = λ m v. refl;
}

-- A wide inactive tab.
abbrev pub tab : Surroundings
tab = record {
  mute_controls_enabled = true;
  touch_ui = false;
  is_active = false;
  selectable_width = 100;
  width = 20;
  alert_indicator_color = λ a. 5;
}
