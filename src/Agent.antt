-- ===== src/Agent.antt =====
-- The agent loop (src/agent/loop.ts): its turns, tool calls, compactions and budgets.
pub mod Results
pub mod Budget
pub mod Progress
pub mod Record
pub mod State
pub mod Compact
pub mod Failures
pub mod Recover
pub mod Resume
pub mod CallWorld
pub mod StateTools
pub mod EditTools
pub mod ToolCall
pub mod Linked
pub mod Turn
pub mod Session
