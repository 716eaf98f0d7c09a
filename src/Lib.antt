-- ===== src/Lib.antt =====
-- UpKit's library, the part that decides what a device installs: the verification of an update while it is
-- received and after it is stored.
--
-- An update is an image in a memory object: a manifest (`manifest_t`), then the firmware. The state
-- machine of src/core/network/fsm.c takes the bytes of the update in calls of any size. It fills the
-- manifest, has it verified by src/core/security/verifier.c, chooses the slot that holds the oldest image
-- with src/core/memory/memory_objects.c, and hands what follows to the pipeline of src/core/pipeline, whose
-- last stage writes into the object. When the last byte has come it reads the object back, and verifies
-- the manifest and the digest that were stored. At the next start the bootloader agent chooses the image to
-- boot, verifies it, and exchanges slots where the newest image is in a slot that is not bootable. The
-- update agent of src/agents/update.c drives the state machine over a connection, one event at a time.
-- On the vendor's side the firmware tool of utils/firmware_tool makes what the device takes apart: it signs the
-- manifest of an image, compresses an image for the LZSS stage, and makes the patch from one image to another for the
-- bspatch stage.
--
-- Where the parts are modelled:
--   Prelude   Boolean tests, lists, the fixed-width integers of include/libpull/common/types.h, memcpy.
--   Errors    `pull_error` of include/libpull/common/error.h.
--   Pipeline  the type of a stage; Pipeline.Buffer is src/core/pipeline/buffer.c, Pipeline.Lzss is lzss.c,
--             Pipeline.Bspatch is bspatch.c, and Pipeline.Writer is writer.c.
--   Memory    the four functions of include/libpull/memory/memory_interface.h; Memory.Manifest is the
--             manifest of simple_manifest.h, and Memory.Manifest.Fields its getters and setters in
--             src/core/memory/simple_manifest.c; Memory.Objects is src/core/memory/memory_objects.c, and
--             Memory.Flash is src/core/memory/memory_flash.c over the driver of a flash memory, and Memory.Posix
--             is src/platform/posix/memory_posix.c over system calls.
--   Security  the interface of the cryptographic back ends and the safestore; Security.Verifier is
--             src/core/security/verifier.c and `verify_signature_impl` of simple_manifest.c, and
--             Security.Signing is its signing functions (ENABLE_SIGN).
--   Network   Network.Fsm is src/core/network/fsm.c; `fsm` and `fsm_init` keep their names, and each case of
--             the switch is a function on_…. Network.Request is src/core/network/request.c, the callback
--             that a connection calls. Network.Device is a platform for the tests.
--   Agents    Agents.Bootloader is src/agents/bootloader_agent.c without a factory image and without
--             coroutines (ENABLE_COROUTINES unset); each numbered step of the code is a
--             function. Agents.Update is src/agents/update.c with the macros of coroutines.h: the function
--             `continue_at` is their switch, and what stands between two returns is a function.
--   FirmwareTool  utils/firmware_tool/commands: FirmwareTool.Compress is the LZSS encoder of pipeline.cpp
--             (`pipeline_compress_command`), FirmwareTool.Decompress its decoder
--             (`pipeline_decompress_command`), FirmwareTool.Offset its numbers of a patch (offtout, offtin),
--             FirmwareTool.Search the search of bsdiff, FirmwareTool.Diff its scan and its blocks
--             (`bsdiff_internal`), FirmwareTool.Patch `bspatch`, and FirmwareTool.Generate is `manifest_generate_command` of
--             manifest.cpp, FirmwareTool.Validate its `manifest_validate_command`.
--   Fixtures  a device for the tests: memory objects in RAM, a layout of six bytes, a back end whose digest
--             is the bytes themselves.
--
-- How the code corresponds to the definitions: a static variable or the target of a pointer is a field of a
-- record that is passed on. Memory objects and the device behind them are the types `O` and `W`, of which the
-- code knows nothing but the platform's functions (`MemoryImpl`). The theorems that need the contents of
-- the objects assume what memory_interface.h documents (`Memory.Stores`), which the files of Memory.Posix do, and the theorems on the digest
-- assume that the back end hashes the bytes that it is fed one after the other
-- (`Security.Verifier.Digest.Streaming`). How the compiler lays a manifest out in memory is a `Layout`.
--
-- Results of type `int` are the ℤ of Prelude. The results of the platform's reads and writes pass through
-- the type `uint16_t`, which memory_impl.c declares for them; sums of `address_t` are taken modulo 2^32. An
-- error log is not modelled.
--
-- Loops run on fuel where they are not over a list. `buffer_pipeline` has two rounds for each byte;
-- `copy_firmware`, `swap_chunk`, `swap_slots`, `verify_digest` and the erasure of an object have one for each
-- offset below the end, and one more; the main loop of the encoder has one for each byte of its file, and one more,
-- as has the loop of the tool over a file that it hashes; the tool's decoder has one for each bit of its file,
-- and one more. The loop of bsdiff has one for each byte of the new file, and two more, that of bspatch one for each
-- byte of the patch, and three more; the search halves at most as often as there are suffixes. The sorted
-- array of suffixes is a function, and the theorems on bsdiff hold of every order that a sort may leave.
-- `none` stands for a loop that does not end, for the failed assertions of `fsm` and `buffer_pipeline` (where
-- ENABLE_ASSERT is set), and for a write of more bytes than a buffer has. The assertions of `swap_slots` and
-- of memory_flash.c are left out: the definitions say what the code does without them.
--
-- Files are lists of bytes, and what a program does not initialise is a parameter. The differential update
-- is modelled in bspatch.c, but `fsm` does not reach it as it stands.
--
-- Not modelled: the drivers of the platforms, the cryptographic back ends and the connections, which only call
-- what is not in the repository; the loader, which is assembly; logs, error strings and the test server; of
-- the firmware tool, the command line, the keys, the printing of a manifest, the suffix sort with the diff command
-- around it, and the patch command, which overruns its buffer for the old file; and the factory image of the bootloader. The numbers that the iostream library extracts from the
-- texts of the command line are parameters.
pub mod Prelude
pub mod Errors
pub mod Pipeline
pub mod Memory
pub mod Security
pub mod Network
pub mod Agents
pub mod FirmwareTool
pub mod Fixtures
