-- ===== src/Apps.antt =====
-- The applications (apps/) and the library of their servers (library/servers).
pub mod Shell
pub mod Servers
pub mod FileServer
pub mod DirServer
pub mod ProcServer
pub mod Commands
