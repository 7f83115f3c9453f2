-- ===== src/Tests.antt =====
-- The model on concrete inputs: fixtures, tests and one instance of each theorem that has conditions.
mod Fixtures
mod Paths
mod Collecting
mod Rendering
mod Configuring
mod Storing
mod Reconciling
mod Answering
mod Commanding
mod Locking
mod Running
mod Streaming
mod Shortening
mod Sessions
mod Exiting
mod Callers
mod Matching
mod Repeating
