-- ===== src/FirmwareTool/Patch/Ends.antt =====
-- utils/firmware_tool/commands/pipeline.cpp: bspatch ends on every input.
use upkit.Prelude.{ℕ, ◌+◌, ◌≢◌, if◌then◌else◌, length}
use upkit.FirmwareTool.Patch.{Input, PatchResult, out_of_fuel}

-- What a stream can still be read for.
abbrev measure : Input → ℕ
measure input = if input.eof then 0 else length input.rest + 1

Returns : PatchResult → Type 0
Returns o = o ≢ out_of_fuel
