-- ===== src/Bits.antt =====
-- The bit operations of the kernel's page arithmetic, for every width.
pub mod Digits
pub mod Mask
pub mod Join
pub mod Powers
pub mod Toggle
