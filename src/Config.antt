-- ===== src/Config.antt =====
-- internal/config: loading, validating, compiling and hot-reloading the configuration, and
-- resolving it for a tab.
pub mod Types
pub mod Matching
pub mod Resolve
pub mod Compile
pub mod Manager
