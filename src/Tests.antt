-- ===== src/Tests.antt =====
-- The theorems at concrete inputs.
pub mod Protocol
pub mod Parts
pub mod Messages
pub mod Emptied
pub mod Sealed
pub mod Delivery
pub mod Lists
pub mod Requests
pub mod Sharing
pub mod Engine
pub mod Logs
pub mod Menus
pub mod Screen
pub mod Stored
