-- ===== src/Ondisk.antt =====
-- Package ondisk: the byte layouts of a Files-11 (ODS-2) volume.
pub mod Block
pub mod Fid
pub mod Uic
pub mod RecAttr
pub mod FileHeader
pub mod Retrieval
pub mod Bitmap
pub mod DirEntry
pub mod DirBlock
mod Examples
pub mod Padded
pub mod HomeBlock
pub mod StorageControlBlock
pub mod Ident
pub mod Acl
