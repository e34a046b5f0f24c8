-- ===== src/Examples.antt =====
-- Runs of the model at concrete inputs, and the theorems applied to them.
mod Capture
mod Statistics
mod ReplayFiles
mod Streams
mod Running
mod Replaying
mod Commands
mod Plans
mod Slow
mod Printing
mod Records
mod Queries
