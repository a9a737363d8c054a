-- ===== src/AlertIndicator/View.antt =====
-- What the button takes from views::ImageButton and views::Button, and the events it reads.
use dumb_browser.Base.{◌≡◌, Bool, true, false, ◌||◌}

pub data ButtonState : Type 0 where
  normal hovered pressed disabled : ButtonState

abbrev pub is_disabled : ButtonState → Bool
is_disabled disabled = true
is_disabled _ = false

abbrev pub is_hovered : ButtonState → Bool
is_hovered hovered = true
is_hovered _ = false

-- `GetEnabled()` and `GetState()`
pub record ButtonView : Type 0 where
  pub enabled : Bool
  pub state : ButtonState

-- The flags of an event are those that the source tests.
pub record MouseEvent : Type 0 where
  pub only_left_mouse_button : Bool
  pub shift_down : Bool
  pub control_down : Bool

unfoldable pub is_shift_or_control_down : MouseEvent → Bool
is_shift_or_control_down event = event.shift_down || event.control_down

pub data Event : Type 0 where
  mouse : MouseEvent → Event
  gesture : Event
  other_event : Event

pub record ButtonBase : Type 0 where
  pub set_enabled : ButtonView → Bool → ButtonView
  pub set_state : ButtonView → ButtonState → ButtonView
  pub on_mouse_pressed : MouseEvent → ButtonView → Bool × ButtonView
  pub on_mouse_dragged : MouseEvent → ButtonView → Bool × ButtonView
  pub on_mouse_entered : MouseEvent → ButtonView → ButtonView
  pub on_mouse_exited : MouseEvent → ButtonView → ButtonView
  pub on_mouse_moved : MouseEvent → ButtonView → ButtonView
  pub is_triggerable_event : Event → ButtonView → Bool
  -- the state whose image `GetImageToPaint` shows
  pub image_state : ButtonView → ButtonState

-- What views::View documents: SetEnabled sets what GetEnabled gives, which the other calls keep.
pub record SetsEnabled (base : ButtonBase) : Type 0 where
  pub enabled-set_enabled : (v : ButtonView) (e : Bool) → (base.set_enabled v e).enabled ≡ e
  pub enabled-set_state :
      (v : ButtonView) (s : ButtonState) → (base.set_state v s).enabled ≡ v.enabled
  pub enabled-on_mouse_pressed :
      (m : MouseEvent) (v : ButtonView) → (base.on_mouse_pressed m v).1.enabled ≡ v.enabled
  pub enabled-on_mouse_dragged :
      (m : MouseEvent) (v : ButtonView) → (base.on_mouse_dragged m v).1.enabled ≡ v.enabled
  pub enabled-on_mouse_entered :
      (m : MouseEvent) (v : ButtonView) → (base.on_mouse_entered m v).enabled ≡ v.enabled
  pub enabled-on_mouse_exited :
      (m : MouseEvent) (v : ButtonView) → (base.on_mouse_exited m v).enabled ≡ v.enabled
  pub enabled-on_mouse_moved :
      (m : MouseEvent) (v : ButtonView) → (base.on_mouse_moved m v).enabled ≡ v.enabled
