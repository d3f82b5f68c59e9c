-- ===== src/Driver.antt =====
-- src/driver.c: the interface of the file system, one module for each group of its functions.
pub mod Checks
pub mod Files
pub mod Dirs
pub mod Volume
pub mod Names
pub mod Rename
pub mod Exec
pub mod Sample
mod Tests
