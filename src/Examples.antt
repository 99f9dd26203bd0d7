-- ===== src/Examples.antt =====
-- Runs of the models at concrete inputs, and the theorems applied there.
mod Frames
mod Windows
mod Pressed
mod Display
mod Memory
mod Control
mod Version
mod Header
mod Commands
mod Packets
mod Client
mod Screens
