-- ===== src/Tui.antt =====
-- The terminal interface (src/tui): the parts that are plain functions.
pub mod PasteChip
pub mod Prompt
pub mod Selection
pub mod TransientLine
