-- ===== src/Volume.antt =====
-- Package volume: allocation, files and directories on a mounted volume.
pub mod StorageBitmap
pub mod Device
pub mod Extents
pub mod File
pub mod Mount
mod TestVolume
mod TestWrite
pub mod IndexBitmap
pub mod Directory
pub mod WriteFile
pub mod Versions
pub mod Allocation
pub mod Headers
