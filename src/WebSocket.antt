-- ===== src/WebSocket.antt =====
-- src/websocket.h: frames to and from the browser extension.
pub mod State
pub mod Constants
pub mod Frame
pub mod Send
pub mod Mask
pub mod Receive
pub mod Message
pub mod Header
pub mod Handshake
pub mod Accept
