-- ===== src/Orchestrator/Work.antt =====
-- The parts of a turn that returns.
use tab_conductor.Prelude.{◌≡◌, Bool-cases, inl, inr}
use tab_conductor.Prelude.Call.{returns, >>=-returns}
use tab_conductor.Dict.{keys}
use tab_conductor.Orchestrator.State.{Orchestrator}
use tab_conductor.Orchestrator.Spawn.{spawn_ready_workers}
use tab_conductor.Orchestrator.Round.{
  Turn, poll_workers, exited, process_exits, any_fails, poll_and_close, work,
}

pub work-returns :
    (turn : Turn) (o o' : Orchestrator)
    → work turn o ≡ returns o'
    → (o1 : Orchestrator) × (spawn_ready_workers turn.now turn.spawns o ≡ returns o1)
      × (process_exits turn.exits
            (exited turn.polls (keys o1.active_handles))
            (poll_workers turn.polls (keys o1.active_handles) o1)
          ≡ o')
unfolding work
work-returns turn o o' h =
    let (o1, h1, h2) =
      >>=-returns (spawn_ready_workers turn.now turn.spawns o) (poll_and_close turn) h in
    elim (Bool-cases (any_fails turn.fails (keys o1.active_handles))) [
      | inl fails ↦ cc (fails, h2)
      | inr fine ↦ (o1, h1, cc (fine, h2))
    ]
