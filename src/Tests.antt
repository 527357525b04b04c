-- ===== src/Tests.antt =====
-- Runs of the model on small inputs, and the theorems applied to them.
mod Segments
mod Tickets
mod Packets
mod Requests
mod Drives
mod Reads
mod Wire
mod Workers
mod Timers
mod Events
mod Callbacks
