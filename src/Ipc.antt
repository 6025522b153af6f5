-- ===== src/Ipc.antt =====
-- crates/aegis-ipc/src: the messages between the daemon and its clients.
pub mod Frame
