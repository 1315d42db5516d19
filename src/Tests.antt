-- ===== src/Tests.antt =====
-- Runs of the theorems at concrete inputs.
mod Transfer
mod Budgets
mod Conversations
mod Terminal
mod Turns
mod Recovery
mod Editing
