-- ===== src/Rms.antt =====
-- Package rms: records in a file's data.
pub mod Length
pub mod BlockStream
pub mod Reader
pub mod Frames
pub mod BlockFile
pub mod Writer
pub mod Sequential
pub mod RoundTrip
pub mod Vfc
pub mod TestFile
