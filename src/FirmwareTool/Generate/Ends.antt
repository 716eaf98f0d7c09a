-- ===== src/FirmwareTool/Generate/Ends.antt =====
-- utils/firmware_tool/commands/manifest.cpp: that the command ends.
use upkit.Memory.Manifest.{Manifest}
