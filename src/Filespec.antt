-- ===== src/Filespec.antt =====
-- Package filespec: VMS file specifications and their wildcards.
pub mod Text
pub mod Wildcard
pub mod Version
