-- ===== src/Flow.antt =====
-- The views of the dialogue state by flow (src/atc/flows/): pattern, cross-country, ground.
pub mod Pattern
pub mod CrossCountry
pub mod Coordinator
pub mod Overlay
