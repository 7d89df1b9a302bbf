-- ===== src/Tests.antt =====
-- Concrete inputs: the theorems at them, and runs of the model.
mod Fixed
mod Sample
mod Rng
mod Lottery
mod Task
mod Scheduler
mod Threads
mod Interleaving
mod Condition
mod Parser
mod Program
mod LinkedList
mod Disk
mod Logger
mod Files
mod Heap
