-- ===== src/Transport.antt =====
-- src/core/transport and src/core/sse: retries, framing, streams and connections.
pub mod Backoff
pub mod Attempts
pub mod JsonRpc
pub mod SseStream
pub mod SseConsumer
pub mod Lifecycle
pub mod WebSocket
pub mod SseTransport
pub mod Framing
pub mod Channel
