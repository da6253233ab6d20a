-- ===== src/Runner.antt =====
-- src/tab_conductor/runner.py: the environment of a worker, and the handle that reads its output, charges
-- its usage, and sends it signals.
pub mod Env
pub mod Lines
pub mod Handle
pub mod Signals
pub mod Poll
pub mod Close
pub mod Quiet
pub mod Charged
pub mod Taken
pub mod Keeps
pub mod Reads
pub mod Severity
pub mod Watch
pub mod Returns
pub mod Causes
pub mod Supervise
pub mod Steadfast
pub mod Patience
mod Tests
