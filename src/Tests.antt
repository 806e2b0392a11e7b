-- ===== src/Tests.antt =====
-- Runs of the definitions and applications of the theorems at concrete inputs.
mod Given
mod Writing
mod Wiring
mod Bandwidth
mod Delay
mod Asking
mod Storage
mod Vectors
mod Pages
mod Printing
mod Running
mod Able
mod Racing
