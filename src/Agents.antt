-- ===== src/Agents.antt =====
-- src/agents: the programs that are put together from the library.
pub mod Bootloader
pub mod Update
