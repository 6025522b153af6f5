-- ===== src/Store.antt =====
-- crates/profile-store: profiles as directories with a metadata file and a lock file.
pub mod Tree
pub mod Disk
pub mod Size
pub mod Token
pub mod Profiles
pub mod Kept
pub mod Written
pub mod Changes
pub mod Writes
pub mod Held
pub mod Locking
pub mod Exclusive
pub mod Sized
pub mod Sound
pub mod ReadBack
pub mod Lasting
