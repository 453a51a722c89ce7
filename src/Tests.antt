-- ===== src/Tests.antt =====
-- Runs of the model on concrete inputs, and the theorems at concrete inputs.
mod Doubles
mod Wakes
mod Serving
mod Texts
mod State
mod Rows
mod Exchange
mod Signing
mod Stored
mod Opening
mod Running
mod Measuring
mod Benching
