-- ===== src/FbServer.antt =====
-- src/fbserver.c: the framebuffer server.
pub mod Keys
pub mod Cache
pub mod Packets
pub mod Replies
pub mod Screen
