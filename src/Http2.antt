-- ===== src/Http2.antt =====
-- The HTTP/2 layer of the client, internal/http2.
pub mod Errors
pub mod Frame
pub mod Framer
pub mod Names
pub mod Meta
pub mod Flow
pub mod DataBuffer
pub mod Pipe
pub mod ClientConn
