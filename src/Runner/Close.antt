-- ===== src/Runner/Close.antt =====
-- `collect_remaining_output` and `close`. What the pipes still hold and the exit code, once the process has
-- ended or was killed, come from outside.
use tab_conductor.Prelude.{String, false, Option, none, some, List, [], ◌∷◌}
use tab_conductor.Prelude.Int.{ℤ}
use tab_conductor.Runner.Lines.{Bytes}
use tab_conductor.Runner.Handle.{exit, World, WorkerHandle, Handled, emit}
use tab_conductor.Runner.Poll.{join_lines}

module _ (w : World) where
  -- the text of a pipe's rest, with `none` for an OSError, before `parts`
  abbrev add_part : Option Bytes → List String → List String
  add_part none parts = parts
  add_part (some []) parts = parts
  add_part (some rest) parts = World.decode w rest ∷ parts

  unfoldable pub collect_remaining_output : Option Bytes → Option Bytes → String
  collect_remaining_output rest rest_err = join_lines (add_part rest (add_part rest_err []))

  abbrev pub close_selector : WorkerHandle (World.money w) → WorkerHandle (World.money w)
  close_selector h = record h { sel_registered = false }

  -- None of what is left is parsed.
  unfoldable pub close : Option Bytes → Option Bytes → ℤ → WorkerHandle (World.money w) → Handled w
  close rest rest_err returncode h =
      emit w (exit returncode (collect_remaining_output rest rest_err)) (close_selector h)
