-- ===== src/Daemon.antt =====
-- windows_daemon, the helper service: one module for each of its files.
pub mod Os
pub mod Firewall
pub mod Routing
pub mod Ipc
pub mod Json
pub mod Acl
pub mod Security
pub mod Accept
pub mod Service
pub mod Handles
pub mod Authenticode
pub mod Pipe
pub mod Process
pub mod Install
pub mod Balance
pub mod Work
pub mod Whole
