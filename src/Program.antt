-- ===== src/Program.antt =====
-- cmd/pc/main.go, with the constructors, `Start` and `Stop` of the parts that it puts together.
pub mod Construct
pub mod Services
pub mod Main
pub mod Wiring
pub mod Running
pub mod Booting
pub mod FirstRequest
pub mod Shutdown
