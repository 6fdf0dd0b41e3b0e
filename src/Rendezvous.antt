-- ===== src/Rendezvous.antt =====
-- src/main.rs: the rendezvous and relay server. The messages are those of
-- libs/hbb_common/protos/rendezvous.proto.
pub mod Message
pub mod Server
pub mod Registry
pub mod Relay
pub mod Waits
pub mod Rounds
pub mod Busy
mod Runs
