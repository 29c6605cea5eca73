-- ===== src/Tests.antt =====
-- Test data, and the theorems at concrete inputs.
mod Serial
mod Sorting
mod Card
mod Commands
mod Buttons
mod Launching
mod Sessions
