-- ===== src/Browser/Flags.antt =====
-- The flags that dumb/browser/about_flags.cc adds to about:flags. A mask of platforms is the list of
-- them.
pub mod Descriptions
pub mod Features
pub mod Applied
use dumb_browser.Base.{String, Bool, true, false, List, [], ◌∷◌}
use Descriptions.{
  tab_hover_cards_id, tab_hover_cards_name, tab_hover_cards_description, extensions_toolbar_menu_id,
  extensions_toolbar_menu_name, extensions_toolbar_menu_description, enable_tab_search_flag_id,
  enable_tab_search_name, enable_tab_search_description, tab_audio_muting_flag_id,
  tab_audio_muting_name, tab_audio_muting_description, fingerprinting_client_rects_noise_id,
  fingerprinting_client_rects_noise_name, fingerprinting_client_rects_noise_description,
  fingerprinting_canvas_measure_text_noise_id, fingerprinting_canvas_measure_text_noise_name,
  fingerprinting_canvas_measure_text_noise_description, fingerprinting_canvas_image_data_noise_id,
  fingerprinting_canvas_image_data_noise_name, fingerprinting_canvas_image_data_noise_description,
}
use Features.{
  Feature, tab_hover_cards, extensions_toolbar_menu, tab_search, tab_audio_muting,
  fingerprinting_client_rects_noise, fingerprinting_canvas_measure_text_noise,
  fingerprinting_canvas_image_data_noise,
}

pub data Platform : Type 0 where
  os_mac os_win os_linux os_cr_os os_android : Platform

abbrev pub os_desktop : List Platform
os_desktop = os_mac ∷ os_win ∷ os_linux ∷ os_cr_os ∷ []

abbrev pub os_all : List Platform
os_all = os_mac ∷ os_win ∷ os_linux ∷ os_cr_os ∷ os_android ∷ []

-- FEATURE_VALUE_TYPE and SINGLE_VALUE_TYPE
pub data EntryType : Type 0 where
  feature_value : Feature → EntryType
  single_value : String → EntryType

pub record FeatureEntry : Type 0 where
  pub internal_name : String
  pub visible_name : String
  pub visible_description : String
  pub supported_platforms : List Platform
  pub entry_type : EntryType

unfoldable pub get_dumb_feature_entries : List FeatureEntry
get_dumb_feature_entries =
    record {
      internal_name = tab_hover_cards_id;
      visible_name = tab_hover_cards_name;
      visible_description = tab_hover_cards_description;
      supported_platforms = os_desktop;
      entry_type = feature_value tab_hover_cards;
    }
    ∷ record {
      internal_name = extensions_toolbar_menu_id;
      visible_name = extensions_toolbar_menu_name;
      visible_description = extensions_toolbar_menu_description;
      supported_platforms = os_desktop;
      entry_type = feature_value extensions_toolbar_menu;
    }
    ∷ record {
      internal_name = enable_tab_search_flag_id;
      visible_name = enable_tab_search_name;
      visible_description = enable_tab_search_description;
      supported_platforms = os_desktop;
      entry_type = feature_value tab_search;
    }
    ∷ record {
      internal_name = tab_audio_muting_flag_id;
      visible_name = tab_audio_muting_name;
      visible_description = tab_audio_muting_description;
      supported_platforms = os_desktop;
      entry_type = single_value tab_audio_muting;
    }
    ∷ record {
      internal_name = fingerprinting_client_rects_noise_id;
      visible_name = fingerprinting_client_rects_noise_name;
      visible_description = fingerprinting_client_rects_noise_description;
      supported_platforms = os_all;
      entry_type = single_value fingerprinting_client_rects_noise;
    }
    ∷ record {
      internal_name = fingerprinting_canvas_measure_text_noise_id;
      visible_name = fingerprinting_canvas_measure_text_noise_name;
      visible_description = fingerprinting_canvas_measure_text_noise_description;
      supported_platforms = os_all;
      entry_type = single_value fingerprinting_canvas_measure_text_noise;
    }
    ∷ record {
      internal_name = fingerprinting_canvas_image_data_noise_id;
      visible_name = fingerprinting_canvas_image_data_noise_name;
      visible_description = fingerprinting_canvas_image_data_noise_description;
      supported_platforms = os_all;
      entry_type = single_value fingerprinting_canvas_image_data_noise;
    }
    ∷ []
