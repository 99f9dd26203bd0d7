-- ===== src/Relay.antt =====
-- src/websocket.c: croutonwebsocket, which relays between a pair of pipes and the browser extension.
pub mod State
pub mod Pipe
pub mod Unrequested
pub mod Request
pub mod Setup
pub mod Loop
