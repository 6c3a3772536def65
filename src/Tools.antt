-- ===== src/Tools.antt =====
-- internal/tools: the registry that runs a tool call (Registry) and the replacement that the tool
-- `edit_file` makes (EditFile).
pub mod Registry
pub mod EditFile
pub mod Examples
