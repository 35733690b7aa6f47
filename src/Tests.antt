-- ===== src/Tests.antt =====
-- Theorems at concrete inputs, and runs of the model, on one small memory.
mod Memory
mod Phase1
mod Phase2
mod Requests
mod SwapPool
mod Actors
mod Answering
mod Starting
mod Mailboxes
mod Pending
mod Tree
mod Booting
mod Passing
mod Ticking
