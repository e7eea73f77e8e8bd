-- ===== src/Filesystem.antt =====
-- src/kavita_ingest/filesystem.py: the state that its calls change. The methods of
-- `LinuxFilesystem` are actions over it, in the module Linux.
pub mod State
pub mod Kept
pub mod Contents
