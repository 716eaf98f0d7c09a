-- ===== src/Network.antt =====
-- The update over the network: the state machine that the received bytes go through.
pub mod Fsm
pub mod Request
pub mod Device
