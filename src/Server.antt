-- ===== src/Server.antt =====
-- The WebDAV server of native/sec_fs/sec_webdav/server.go and filesystem.go: the paths of requests, the
-- sessions with their listeners and their records in an encrypted root, and what a request is let do.
pub mod Paths
pub mod Types
pub mod Auth
pub mod Records
pub mod Listeners
pub mod Open
pub mod Sessions
pub mod Handle
pub mod Files
pub mod Listening
pub mod Calls
pub mod Mounts
mod Tests
