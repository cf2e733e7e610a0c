-- ===== src/Go.antt =====
-- What the services use of Go's standard library.
pub mod Hex
pub mod Sha256
pub mod Fmt
pub mod Fnv
pub mod Http
pub mod Strings
pub mod Space
pub mod FilePath
