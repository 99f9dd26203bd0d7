-- ===== src/Wm.antt =====
-- src/wmtools.c: listing and raising top-level windows. The X server is an argument: what its
-- queries return; the model yields the exit status and the requests that change the screen.
pub mod Raise
pub mod Listing
