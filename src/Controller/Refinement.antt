-- ===== src/Controller/Refinement.antt =====
-- The operations of controller.cpp against the protocol of Controller/Machine, on hosts that run
-- each script to its end before anything else happens.
pub mod Host
pub mod Sessions
pub mod Rules
pub mod Second
pub mod Tick
pub mod Bounce
pub mod Steady
pub mod Round
pub mod Delete
pub mod Whole
