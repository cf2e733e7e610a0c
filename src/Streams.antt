-- ===== src/Streams.antt =====
-- services/streams.
pub mod Store
pub mod HttpJson
pub mod Auth
pub mod StreamKeys
pub mod MediaMtx
pub mod S3Client
pub mod Recordings
pub mod Channels
pub mod Server
