-- ===== src/Transport.antt =====
-- pkg/infrastructure_layer/transport/transporters/host.go: channels between the program and libp2p.
pub mod Defs
pub mod Dialling
pub mod Workers
pub mod Closing
pub mod Sound
pub mod Hosting
pub mod Keeping
pub mod Removing
pub mod Calls
pub mod Stale
