-- ===== src/Examples.antt =====
-- Tests, and instances of the theorems on concrete inputs.
mod Data
mod Records
mod States
mod Flushes
mod Unmapped
mod Reading
mod Sessions
mod Lines
mod Inputs
mod Servers
