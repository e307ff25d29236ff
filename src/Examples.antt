-- ===== src/Examples.antt =====
-- The theorems at concrete inputs, and runs of the modelled code.
mod Wire
mod Sealing
mod Arrivals
mod Whole
mod Timeouts
mod Network
mod Nodes
mod Files
mod Delivery
mod Answers
mod Interface
