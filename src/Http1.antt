-- ===== src/Http1.antt =====
-- The HTTP/1 side: internal/chunked.go, the chunked transfer coding.
pub mod Bufio
pub mod Chunked
