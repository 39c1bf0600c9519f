-- ===== src/App.antt =====
-- main.go: the configuration, the choice of the transport, and the loop over the messages.
mod Tests
pub mod Config
pub mod Loop
pub mod Flags
pub mod Tracing
pub mod Start
pub mod Program
