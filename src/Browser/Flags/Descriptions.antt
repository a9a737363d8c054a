-- ===== src/Browser/Flags/Descriptions.antt =====
-- dumb/browser/flag_descriptions.cc: what about:flags shows of each flag. Texts that the source writes
-- one after the other are joined as they stand.
use dumb_browser.Base.{String, ◌<>◌}

abbrev pub tab_hover_cards_id : String
tab_hover_cards_id = "tab-hover-cards"

abbrev pub tab_hover_cards_name : String
tab_hover_cards_name = "Tab Hover Cards"

abbrev pub tab_hover_cards_description : String
tab_hover_cards_description =
    "Enables a popup containing tab information to be visible when hovering "
    <> "over a tab. This will replace tooltips for tabs."

abbrev pub extensions_toolbar_menu_id : String
extensions_toolbar_menu_id = "extensions-toolbar-menu"

abbrev pub extensions_toolbar_menu_name : String
extensions_toolbar_menu_name = "Extensions Toolbar Menu"

abbrev pub extensions_toolbar_menu_description : String
extensions_toolbar_menu_description = "Enable a separate toolbar button and menu for extensions"

abbrev pub enable_tab_search_flag_id : String
enable_tab_search_flag_id = "enable-tab-search"

abbrev pub enable_tab_search_name : String
enable_tab_search_name = "Enable Tab Search"

abbrev pub enable_tab_search_description : String
enable_tab_search_description =
    "Enable the Tab Search feature in Top Chrome UI, which will show a popup "
    <> "bubble that allows users to search over their currently open tabs."

abbrev pub tab_audio_muting_flag_id : String
tab_audio_muting_flag_id = "enable-tab-audio-muting"

abbrev pub tab_audio_muting_name : String
tab_audio_muting_name = "Tab audio muting UI control"

abbrev pub tab_audio_muting_description : String
tab_audio_muting_description =
    "When enabled, the audio indicators in the tab strip double as tab audio "
    <> ("mute controls. This also adds commands in the tab context menu for "
        <> "quickly muting multiple selected tabs.")

abbrev pub fingerprinting_client_rects_noise_id : String
fingerprinting_client_rects_noise_id = "fingerprinting-client-rects-noise"

abbrev pub fingerprinting_client_rects_noise_name : String
fingerprinting_client_rects_noise_name = "Enable get*ClientRects() fingerprinting deception."

abbrev pub fingerprinting_client_rects_noise_description : String
fingerprinting_client_rects_noise_description =
    "Scale the output values of Range::getClientRects() and"
    <> ("Element::getBoundingClientRect() with a randomly selected factor"
        <> ("in the range -0.0003% to 0.0003%, which are recomputed on every document"
            <> "initialization. ungoogled-chromium flag, Bromite feature."))

abbrev pub fingerprinting_canvas_measure_text_noise_id : String
fingerprinting_canvas_measure_text_noise_id = "fingerprinting-canvas-measuretext-noise"

abbrev pub fingerprinting_canvas_measure_text_noise_name : String
fingerprinting_canvas_measure_text_noise_name =
    "Enable Canvas::measureText() fingerprinting deception."

abbrev pub fingerprinting_canvas_measure_text_noise_description : String
fingerprinting_canvas_measure_text_noise_description =
    "Scale the output values of Canvas::measureText() with a randomly selected"
    <> ("factor in the range -0.0003% to 0.0003%, which are recomputed on every"
        <> "document initialization. ungoogled-chromium flag, Bromite feature.")

abbrev pub fingerprinting_canvas_image_data_noise_id : String
fingerprinting_canvas_image_data_noise_id = "fingerprinting-canvas-image-data-noise"

abbrev pub fingerprinting_canvas_image_data_noise_name : String
fingerprinting_canvas_image_data_noise_name = "Enable Canvas image data fingerprint deception."

abbrev pub fingerprinting_canvas_image_data_noise_description : String
fingerprinting_canvas_image_data_noise_description =
    "Slightly modifies at most 10 pixels in Canvas image data extracted"
    <> "via JS APIs. ungoogled-chromium flag, Bromite feature."
