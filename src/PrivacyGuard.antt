-- ===== src/PrivacyGuard.antt =====
-- The URL purifier of dumb/components/privacy_guard and dumb/services/network/privacy_guard.
pub mod Libraries
pub mod Rule
pub mod DefaultRules
pub mod Matcher
pub mod Delegate
pub mod Service
mod Tests
