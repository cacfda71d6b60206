-- ===== src/Controller.antt =====
-- controller.h and controller.cpp: the object and its heap, the operations of one session, the
-- timer and the settings, and the theories about them.
pub mod State
pub mod Action
pub mod Script
pub mod Operations
pub mod Timer
pub mod Settings
pub mod Calls
pub mod Machine
pub mod Equations
pub mod Lifetime
pub mod Reentrancy
pub mod Lifecycle
pub mod Refinement
pub mod Access
pub mod Timeline
pub mod Values
pub mod Busy
pub mod Getters
