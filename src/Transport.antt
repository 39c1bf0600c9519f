-- ===== src/Transport.antt =====
-- internal/transport: the handlers that turn intercepted bytes into messages.
mod Tests
pub mod Cutter
pub mod Space
pub mod Wire
pub mod Lines
pub mod StreamBuffer
pub mod Socket
pub mod Proxy
pub mod Ebpf
pub mod Stdio
pub mod Tracer
pub mod Defer
