-- ===== src/Input.antt =====
-- input.cpp: the input of one streaming session, from queued packets to calls of the platform.
pub mod State
pub mod Keyboard
pub mod Mouse
pub mod Gamepad
pub mod Packet
pub mod Pointer
pub mod Batch
pub mod Session
mod Tests
