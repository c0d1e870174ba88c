-- ===== src/Tests.antt =====
-- Runs of the code at concrete inputs.
mod Limits
mod Delivery
mod Workers
mod Storage
mod Network
mod Runs
mod Pages
mod Tasks
