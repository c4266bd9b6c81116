-- ===== src/Ota/State/Invariant/Ingest.antt =====
-- src/ota/state.rs: what the handling of a block leaves alone.
use rustot.Prelude.{ℕ, ◌<◌, sym, subst, inl, inr, Outcome-cases, true, false, List, arith}
use rustot.Deps.{Deps}
use rustot.Ota.Error.{OtaError}
use rustot.Ota.Config.{Config}
use rustot.Ota.State.Context.{Parts}
use rustot.Ota.State.Handlers.{
  process_data_handler, finish, file_complete, block_complete, block_failed,
}
use rustot.Ota.State.Ingest.{ingest_data_block, ingest_block, ingest_valid, after_block}
use rustot.Ota.Encoding.{FileContext}
use rustot.Ota.DataInterface.{FileBlock}
use rustot.Ota.Pal.{OtaEvent}
use rustot.Ota.State.Invariant.{Keeps, Steady-trans}

module _ {d : Deps} (parts : Parts d) where
  after_block-Keeps :
      (config : Config) (f : FileContext d) → Keeps parts (after_block parts config f)
  unfolding after_block
  after_block-Keeps config f c l = ground arith

  ingest_valid-Keeps :
      (config : Config) (b : FileBlock) (f : FileContext d)
      → Keeps parts (ingest_valid parts config b f)
  unfolding ingest_valid after_block
  ingest_valid-Keeps config b f c l = ground arith

  ingest_data_block-Keeps : (payload : List ℕ) → Keeps parts (ingest_data_block parts payload)
  unfolding ingest_data_block ingest_block ingest_valid after_block
  ingest_data_block-Keeps payload c l = ground arith

  finish-Keeps : (e : OtaEvent) → Keeps parts (finish parts e)
  unfolding finish
  finish-Keeps e c l = ground arith

  file_complete-Keeps : Keeps parts (file_complete parts)
  unfolding file_complete finish
  file_complete-Keeps c l = ground arith

  block_complete-Keeps : Keeps parts (block_complete parts)
  unfolding block_complete
  block_complete-Keeps c l = ground arith

  block_failed-Keeps : (e : OtaError) → Keeps parts (block_failed parts e)
  unfolding block_failed
  block_failed-Keeps e c l = ground arith

  pub process_data_handler-Keeps :
      (payload : List ℕ) → Keeps parts (process_data_handler parts payload)
  unfolding process_data_handler
  process_data_handler-Keeps payload c l =
      let r = ingest_data_block parts payload c in
      let k = ingest_data_block-Keeps payload c l in
      let l' : r.1.config.max_request_momentum < 255 =
        subst (λ (x : Config). x.max_request_momentum < 255) (sym k.config_kept) l in
      elim (Outcome-cases r.0) [
        | inl (true, e) ↦ rw e (Steady-trans k (file_complete-Keeps r.1 l'))
        | inl (false, e) ↦ rw e (Steady-trans k (block_complete-Keeps r.1 l'))
        | inr (inl (x, e)) ↦ rw e (Steady-trans k (block_failed-Keeps x r.1 l'))
        | inr (inr e) ↦ rw e k
      ]
