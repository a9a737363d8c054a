-- ===== src/Net.antt =====
-- Request interception in the browser process: dumb/browser/net.
pub mod Libraries
pub mod RequestInfo
pub mod SecurityHeaders
pub mod Handler
pub mod Loader
pub mod Factory
pub mod WebSocket
pub mod Ownership
mod Toy
mod Tests
