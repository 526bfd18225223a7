-- ===== src/Json.antt =====
-- gearbox/core: JSON values, their printing and parsing.
pub mod Value
pub mod Order
pub mod Access
pub mod Generator
pub mod Parser
