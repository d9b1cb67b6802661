-- ===== src/Core.antt =====
-- app/core: the kernel that the slices share.
pub mod Result
pub mod Errors
pub mod Answers
