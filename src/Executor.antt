-- ===== src/Executor.antt =====
-- internal/executor/executor.go: the ring of recorded commands. What a command does outside dry
-- run is not part of the model.
pub mod Ring
use airgapp_rpi.Base.{
  ℕ, zero, suc, ◌+◌, ◌-◌, ◌*◌, ◌/◌, ◌%◌, ◌^◌, ◌≤◌, ◌<◌, min, ◌≡◌, ◌≢◌, ◌↔◌, ◌⊎◌, refl, ap, sym, ◌∙◌,
  Bool, true, false, not, ◌&&◌, ◌||◌, Option, none, some, List, [], ◌∷◌, ◌++◌, map, any, all, All,
  keep, arith, length, take, drop, length-append, length-drop, append_assoc, if◌then◌else◌, ltb,
  leb, ◌==◌, Bool-cases, inl, inr,
}
use airgapp_rpi.Base.Text.{Text}

abbrev pub max_recorded : ℕ
max_recorded = 256

pub record Executor : Type 0 where
  pub dry_run : Bool
  pub recorded : List Text

-- `New`
unfoldable pub new_executor : Bool → Executor
new_executor dry_run = record { dry_run = dry_run; recorded = [] }

-- `e.recorded[len(e.recorded)-maxRecorded:]` where it is longer.
abbrev pub latest : List Text → List Text
latest cmds =
    if ltb max_recorded (length cmds) then drop (length cmds - max_recorded) cmds else cmds

-- `record`
unfoldable pub record_command : Executor → Text → Executor
record_command e cmd =
    if not e.dry_run then e else record e { recorded = latest (e.recorded ++ cmd ∷ []) }

-- The commands of a process, in order: `Run` records each before anything else.
unfoldable pub run_all : Executor → List Text → Executor
run_all e [] = e
run_all e (cmd ∷ cmds) = run_all (record_command e cmd) cmds
