-- ===== src/Orchestrator.antt =====
-- src/tab_conductor/orchestrator.py: the supervisor of the workers. State.antt holds the objects,
-- Ready.antt to Round.antt the methods in the order of one turn of the loop, and the other modules
-- what is proved of them. What the outside world answers in a turn (clock readings, new worker ids,
-- whether a spawn succeeds, exit codes, the guards' verdicts) is an argument `env` of that turn.
pub mod State
pub mod Retry
pub mod Ready
pub mod Command
pub mod Spawn
pub mod Exit
pub mod Round
pub mod Work
pub mod Invariant
pub mod Steps
pub mod Starts
pub mod Dispatch
pub mod Reach
pub mod Initial
pub mod Starting
pub mod Document
pub mod Mirror
pub mod Records
pub mod Schema
pub mod Saved
pub mod Sent
pub mod Summary
pub mod File
pub mod Create
pub mod Limit
pub mod Outcome
pub mod Budget
pub mod Priority
pub mod Frame
pub mod Stall
pub mod Tests
