-- ===== src/Ota/State/Selection.antt =====
-- src/ota/state.rs: which data interface a job gets.
use rustot.Prelude.{◌≡◌, Bool, true, false, Option, none, some, List, any, arith, ◌↔◌}
use rustot.Deps.{Deps}
use rustot.Ota.Protocol.{Protocol, protocol_eq}
use rustot.Ota.Encoding.{FileContext}
use rustot.Ota.DataInterface.{DataInterface}
use rustot.Ota.State.Context.{Parts, primary, secondary}
use rustot.Ota.State.Job.{select_interface}

-- Whether the job allows the protocol of an interface.
abbrev pub offers : {d : Deps} → DataInterface d → List Protocol → Bool
offers di protocols = any (protocol_eq di.protocol) protocols

abbrev pub offers? : {d : Deps} → Option (DataInterface d) → List Protocol → Bool
offers? none protocols = false
offers? (some di) protocols = offers di protocols

-- The primary interface is taken exactly where the job allows its protocol, the secondary one exactly
-- where there is one whose protocol the job allows while it does not allow the primary's, and none
-- exactly where it allows neither. The interface that is taken holds the file context that was given.
pub select_interface_iff :
    {d : Deps} (parts : Parts d) (f : FileContext d) (protocols : List Protocol)
    → ((select_interface parts f protocols ≡ some (primary f))
        ↔ (offers parts.data_primary protocols ≡ true))
      × ((select_interface parts f protocols ≡ some (secondary f)) ↔ (
          (offers parts.data_primary protocols ≡ false)
          × (offers? parts.data_secondary protocols ≡ true)))
      × ((select_interface parts f protocols ≡ none) ↔ (
          (offers parts.data_primary protocols ≡ false)
          × (offers? parts.data_secondary protocols ≡ false)))
unfolding select_interface
select_interface_iff parts f protocols = ground arith
