-- ===== src/Inspector.antt =====
-- The inspector (src/inspector): its routes, the files that it serves, and how it is stopped.
pub mod Path
pub mod Listing
pub mod Files
pub mod Routes
pub mod Stop
mod Tests
