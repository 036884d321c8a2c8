-- ===== src/Cron.antt =====
-- internal/gateway/cron.go: the schedule check, the rendering of commands and of the file below
-- /etc/cron.d, and the transaction that keeps CloudPanel's table and that file in step.
pub mod Schedule
pub mod Runner
pub mod Render
pub mod Quoting
pub mod Lines
pub mod Transaction
pub mod Execute
mod Tests
