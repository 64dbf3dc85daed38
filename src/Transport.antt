-- ===== src/Transport.antt =====
-- transport.go: the requests that wait for a connection of the HTTP/1 transport.
pub mod WantConnQueue
pub mod Dials
