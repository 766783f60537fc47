-- ===== src/Editor.antt =====
-- The plugin's part of the editor: src/components/, src/index.ts and the helpers of src/utilities/ that
-- they use.
pub mod Uri
pub mod Ticket
pub mod Modal
