-- ===== src/AlertIndicator/Images.antt =====
-- The icons of dumb/browser/ui/views/tabs/alert_indicator_button.cc: `GetTabAlertIndicatorImage`,
-- `GetTabAlertIndicatorAffordanceImage` and `ResetImages`.
use dumb_browser.Base.{ℕ, Bool, true, false, ◌&&◌, ◌||◌, Option, none, some, if◌then◌else◌, ◌==◌}

pub data TabAlertState : Type 0 where
  media_recording tab_capturing audio_playing audio_muting : TabAlertState
  bluetooth_connected bluetooth_scan_active usb_connected hid_connected : TabAlertState
  serial_connected pip_playing desktop_capturing vr_presenting_in_headset : TabAlertState

pub TabAlertState-discrete : Discrete TabAlertState
TabAlertState-discrete = hlevel

pub data VectorIcon : Type 0 where
  tab_audio tab_audio_rounded tab_audio_muting tab_audio_muting_rounded : VectorIcon
  tab_media_recording tab_media_capturing tab_media_capturing_with_arrow : VectorIcon
  tab_bluetooth_connected tab_bluetooth_scan_active tab_usb_connected : VectorIcon
  videogame_asset serial_port picture_in_picture_alt vr_headset : VectorIcon

-- Which layout constant gives the width.
pub data IconWidth : Type 0 where
  indicator_icon_width capture_icon_width : IconWidth

pub record Image : Type 0 where
  pub icon : VectorIcon
  pub width : IconWidth
  pub color : ℕ

pub record ButtonImages : Type 0 where
  pub normal : Image
  pub disabled : Image
  pub hovered : Image
  pub pressed : Image

abbrev pub is_audio : TabAlertState → Bool
is_audio audio_playing = true
is_audio audio_muting = true
is_audio _ = false

abbrev pub state_code : TabAlertState → ℕ
state_code media_recording = 0
state_code tab_capturing = 1
state_code audio_playing = 2
state_code audio_muting = 3
state_code bluetooth_connected = 4
state_code bluetooth_scan_active = 5
state_code usb_connected = 6
state_code hid_connected = 7
state_code serial_connected = 8
state_code pip_playing = 9
state_code desktop_capturing = 10
state_code vr_presenting_in_headset = 11

indicator_icon : Bool → TabAlertState → VectorIcon
indicator_icon touch_ui audio_playing = if touch_ui then tab_audio_rounded else tab_audio
indicator_icon touch_ui audio_muting =
    if touch_ui then tab_audio_muting_rounded else tab_audio_muting
indicator_icon touch_ui media_recording = tab_media_recording
indicator_icon touch_ui desktop_capturing = tab_media_recording
indicator_icon touch_ui tab_capturing =
    if touch_ui then tab_media_capturing_with_arrow else tab_media_capturing
indicator_icon touch_ui bluetooth_connected = tab_bluetooth_connected
indicator_icon touch_ui bluetooth_scan_active = tab_bluetooth_scan_active
indicator_icon touch_ui usb_connected = tab_usb_connected
indicator_icon touch_ui hid_connected = videogame_asset
indicator_icon touch_ui serial_connected = serial_port
indicator_icon touch_ui pip_playing = picture_in_picture_alt
indicator_icon touch_ui vr_presenting_in_headset = vr_headset

indicator_width : TabAlertState → IconWidth
indicator_width tab_capturing = capture_icon_width
indicator_width _ = indicator_icon_width

unfoldable pub get_tab_alert_indicator_image : Bool → TabAlertState → ℕ → Image
unfolding indicator_icon indicator_width
get_tab_alert_indicator_image touch_ui alert_state button_color = record {
  icon = indicator_icon touch_ui alert_state;
  width = indicator_width alert_state;
  color = button_color;
}

unfoldable pub get_tab_alert_indicator_affordance_image : Bool → TabAlertState → ℕ → Image
unfolding get_tab_alert_indicator_image
get_tab_alert_indicator_affordance_image touch_ui audio_playing button_color =
    get_tab_alert_indicator_image touch_ui audio_muting button_color
get_tab_alert_indicator_affordance_image touch_ui audio_muting button_color =
    get_tab_alert_indicator_image touch_ui audio_playing button_color
get_tab_alert_indicator_affordance_image touch_ui alert_state button_color =
    get_tab_alert_indicator_image touch_ui alert_state button_color

unfoldable pub reset_images : Bool → ℕ → TabAlertState → ButtonImages
unfolding get_tab_alert_indicator_image get_tab_alert_indicator_affordance_image
reset_images touch_ui color alert_state =
    let indicator = get_tab_alert_indicator_image touch_ui alert_state color in
    let affordance = get_tab_alert_indicator_affordance_image touch_ui alert_state color in
    record { normal = indicator; disabled = indicator; hovered = affordance; pressed = affordance }

-- `==` on optional states.
abbrev pub same_state : Option TabAlertState → Option TabAlertState → Bool
same_state none none = true
same_state (some a) (some b) = state_code a == state_code b
same_state _ _ = false

-- The two transitions between playing and muting.
abbrev pub toggles_audio : Option TabAlertState → Option TabAlertState → Bool
toggles_audio from to =
    (same_state from (some audio_playing) && same_state to (some audio_muting))
    || (same_state from (some audio_muting) && same_state to (some audio_playing))
