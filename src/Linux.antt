-- ===== src/Linux.antt =====
-- pkg/linux: what the angels read from the kernel.
pub mod NetConn
pub mod ProcNet
pub mod Proc
pub mod Host
pub mod Inotify
