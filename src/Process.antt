-- ===== src/Process.antt =====
-- The process around the controller: handle_signals.c, ec_simple.h and main.cpp.
pub mod Numbers
pub mod Handler
pub mod Signals
pub mod Acts
pub mod Masks
pub mod Policy
pub mod Setup
pub mod Replace
pub mod Deliver
pub mod Shutdown
pub mod Main
pub mod Ending
