-- ===== src/Browser.antt =====
-- What the browser process adds to Chromium's: its flags, its profiles' services, the preferences of
-- the settings page and the version text, of dumb/browser and dumb/components/version_info.
pub mod Flags
pub mod Profiles
pub mod Preferences
mod Tests
