-- ===== src/FirmwareTool.antt =====
-- utils/firmware_tool: the program that prepares an update on the vendor's side.
pub mod Offset
pub mod Compress
pub mod Decompress
pub mod Search
pub mod Diff
pub mod Patch
pub mod Generate
pub mod Validate
