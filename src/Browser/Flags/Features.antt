-- ===== src/Browser/Flags/Features.antt =====
-- The features and switches that the flags turn on: dumb/browser/ui/ui_features.cc,
-- dumb/common/dumb_switches.cc and dumb/components/dumb/switches.cc.
use dumb_browser.Base.{String}

pub data FeatureState : Type 0 where
  disabled_by_default enabled_by_default : FeatureState

pub record Feature : Type 0 where
  pub name : String
  pub default_state : FeatureState

abbrev pub tab_hover_cards : Feature
tab_hover_cards = record { name = "TabHoverCards"; default_state = enabled_by_default }

abbrev pub extensions_toolbar_menu : Feature
extensions_toolbar_menu = record {
  name = "ExtensionsToolbarMenu";
  default_state = enabled_by_default;
}

abbrev pub tab_search : Feature
tab_search = record { name = "TabSearch"; default_state = disabled_by_default }

abbrev pub tab_audio_muting : String
tab_audio_muting = "tab-audio-muting"

abbrev pub fingerprinting_client_rects_noise : String
fingerprinting_client_rects_noise = "fingerprinting-client-rects-noise"

abbrev pub fingerprinting_canvas_measure_text_noise : String
fingerprinting_canvas_measure_text_noise = "fingerprinting-canvas-measuretext-noise"

abbrev pub fingerprinting_canvas_image_data_noise : String
fingerprinting_canvas_image_data_noise = "fingerprinting-canvas-image-data-noise"
