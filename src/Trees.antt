-- ===== src/Trees.antt =====
-- messaging/trees: the message trees, their queues, the repository and the manager.
mod Examples
mod Runs
pub mod Queue
pub mod Node
pub mod Tree
pub mod Repository
pub mod Processor
pub mod Manager
pub mod Json
pub mod Saved
