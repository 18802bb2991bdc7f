-- ===== src/Ssh.antt =====
-- ssh/client.go: commands and files on another machine.
pub mod Commands
pub mod Files
mod Tests
