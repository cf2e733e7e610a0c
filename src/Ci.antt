-- ===== src/Ci.antt =====
-- .github/scripts.
pub mod BumpTag
