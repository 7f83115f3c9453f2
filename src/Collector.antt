-- ===== src/Collector.antt =====
-- internal/collector: from a snapshot of the server to the contexts that templates render, one
-- for each tab, and to the summary of the status line.
pub mod Normalize
pub mod Panes
pub mod Build
pub mod Processes
pub mod Sessions
