-- ===== src/Kiwi.antt =====
-- host-ext/nacl_src: the native client of the browser extension, which shows the frames of the
-- framebuffer server and sends it input.
pub mod Keycodes
pub mod Keysyms
pub mod State
pub mod Sending
pub mod Packets
pub mod Input
pub mod Search
pub mod Painting
pub mod Cursors
pub mod Socket
pub mod Messages
