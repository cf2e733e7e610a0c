-- ===== src/Recorder.antt =====
-- services/vod-recorder.
pub mod Env
pub mod Uploader
pub mod Main
