-- ===== src/Ota/Agent/Rows.antt =====
-- src/ota/agent.rs: the row of the table that an event runs.
use rustot.Prelude.{◌≡◌, ◌∙◌, ap, Option}
use rustot.Deps.{Deps}
use rustot.Ota.State.Context.{Events, Parts}
use rustot.Ota.State.Machine.{
  Row, StateMachine, Smlang, IsDocumented, transition, run_row, run_table,
}
use rustot.Ota.Agent.{dispatch}

module _ {d : Deps} (sm : Smlang d) (documented : IsDocumented sm) (parts : Parts d) where
  pub dispatch_row :
      (e : Events d) (m : StateMachine d) (row : Option (Row d))
      → transition parts m.state e ≡ row
      → dispatch sm parts e m ≡ run_row row m
  unfolding dispatch run_table
  dispatch_row e m row h =
      documented.process_event_lem (transition parts) e m ∙ ap (λ r. run_row r m) h
