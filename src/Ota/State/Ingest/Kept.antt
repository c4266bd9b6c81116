-- ===== src/Ota/State/Ingest/Kept.antt =====
-- `ingest_data_block` of src/ota/state.rs: what no call changes.
use rustot.Prelude.{ℕ, ◌≡◌, ap, subst, some, List, Outcome, ok, Bool, arith, Bool-cases, inl, inr}
use rustot.Deps.{Deps}
use rustot.Ota.Config.{Config}
use rustot.Ota.Error.{OtaError}
use rustot.Ota.Encoding.{FileContext}
use rustot.Ota.DataInterface.{FileBlock}
use rustot.Ota.State.Context.{Parts, SmContext, primary, file_ctx, set_file_ctx}
use rustot.Ota.State.Ingest.{
  mark_received, next_window, after_block, ingest_valid, ingest_block, ingest_data_block,
}
use rustot.Ota.State.Ingest.Shape.{
  Ending, unchanged, last, more, DecodeKeepsFile, Decodes, ingest_data_block_ending,
}

-- What the job document says of a file, and no call changes.
abbrev pub Described : {d : Deps} → FileContext d → FileContext d → Type 0
Described f g = (g.file_type ≡ f.file_type) × (g.filepath ≡ f.filepath)

module _ {d : Deps} where
  next_window-Described :
      (config : Config) (f f' : FileContext d) → next_window config f ≡ ok f' → Described f f'
  unfolding next_window
  next_window-Described config f f' e = elim (Bool-cases (d.is_empty f.bitmap)) [
    | inl y ↦ ground (arith, e, y)
    | inr n ↦ ground (arith, e, n)
  ]

  same-Described : (f f' : FileContext d) → f' ≡ f → Described f f'
  same-Described f f' e =
      (ap (λ (x : FileContext d). x.file_type) e, ap (λ (x : FileContext d). x.filepath) e)

  Ending-Described :
      (D : FileBlock → Type 0) (config : Config) (f f' : FileContext d) (r : Outcome OtaError Bool)
      → Ending D config f r f'
      → Described f f'
  unfolding mark_received
  Ending-Described D config f f' r (unchanged n e) = same-Described f f' e
  Ending-Described D config f f' r (last block q v new n done e) =
      same-Described (mark_received block f) f' e
  Ending-Described D config f f' r (more block q v new n e w) =
      next_window-Described config (mark_received block f) f' w

module _ {d : Deps} (parts : Parts d) (payload : List ℕ) (c : SmContext d) where
  pub ingest_data_block-config : (ingest_data_block parts payload c).1.config ≡ c.config
  unfolding ingest_data_block ingest_block ingest_valid after_block
  ingest_data_block-config = ground arith

  pub ingest_data_block-events : (ingest_data_block parts payload c).1.events ≡ c.events
  unfolding ingest_data_block ingest_block ingest_valid after_block
  ingest_data_block-events = ground arith

  pub ingest_data_block-Described :
      (f g : FileContext d)
      → DecodeKeepsFile parts payload
      → c.active_interface ≡ some (primary f)
      → (ingest_data_block parts payload c).1.active_interface ≡ some (primary g)
      → Described f g
  unfolding file_ctx set_file_ctx
  ingest_data_block-Described f g k a a' =
      let (f', b, e) = ingest_data_block_ending parts payload c (primary f) k a in
      let same : f' ≡ g = cc in
      subst (Described f) same (Ending-Described (Decodes parts payload c) c.config f f' _ e)
