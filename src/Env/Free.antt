-- ===== src/Env/Free.antt =====
-- env_free gives everything back that the environment's address space refers to.
pub mod Table
pub mod Directory
pub mod Whole
mod Tests
