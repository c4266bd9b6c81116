-- ===== src/Ota/State/Ingest/Arrived.antt =====
-- `ingest_data_block` of src/ota/state.rs where the blocks of a file come in one after the other: the
-- service, the worlds that hold what came, and a context to which the first blocks came.
use rustot.Prelude.{ℕ, suc, ◌+◌, ◌*◌, ◌<◌, ◌≡◌, refl, ◌∙◌, true, some, List, ok, arith, leb, Str}
use rustot.Deps.{Deps}
use rustot.Deps.Count.{count_below-all}
use rustot.Ota.Error.{OtaError}
use rustot.Ota.Config.{usize}
use rustot.Ota.Encoding.{FileContext}
use rustot.Ota.DataInterface.{FileBlock, validate}
use rustot.Ota.DataInterface.Validate.{file_blocks}
use rustot.Ota.State.Context.{Parts, SmContext, primary}
use rustot.Ota.State.Ingest.Stores.{Stores}
use rustot.Ota.State.Ingest.Shape.{DecodeKeepsFile, Decodes}
use rustot.Ota.State.Ingest.Window.{missing, IsReceiving}

-- Where a file is to be stored, and kinds of worlds: those in which the blocks before `k` are there, and
-- those in which the file is closed.
pub record Worlds (d : Deps) : Type 1 where
  pub path : Str
  pub held : ℕ → d.World → Type 0
  pub saved : d.World → Type 0

module _ {d : Deps} (parts : Parts d) (payload : ℕ → List ℕ) where
  -- A service whose payload `k` is decoded to the block `k` of a file, whatever came before, and a
  -- platform that stores this block.
  pub record Streams (ws : Worlds d) (block_size filesize : ℕ) : Type 0 where
    pub keeps : (k : ℕ) → k < file_blocks filesize block_size → DecodeKeepsFile parts (payload k)
    pub reads :
        (k : ℕ) (f : FileContext d) (w : d.World)
        → k < file_blocks filesize block_size
        → ws.held k w
        → ws.held k (parts.data_primary.decode_file_block (payload k) (f, w)).1.1
    pub decodes :
        (k : ℕ) (c : SmContext d) (f : FileContext d)
        → k < file_blocks filesize block_size
        → c.active_interface ≡ some (primary f)
        → (block : FileBlock) × Decodes parts (payload k) c block
          × (block.block_id ≡ k)
          × (validate {E = OtaError} block block_size filesize ≡ ok true)
          × Stores parts ws.path
              (ws.held k)
              (ws.held (suc k))
              (λ w. suc k ≡ file_blocks filesize block_size → ws.saved w)
              (usize (block.block_id * block_size))
              block.block_payload

-- The blocks before `k` are here, and no other.
pub record Arrived {d : Deps} (ws : Worlds d) (b size k : ℕ) (c : SmContext d) : Type 0 where
  pub file : FileContext d
  pub active : c.active_interface ≡ some (primary file)
  pub sized : c.config.block_size ≡ b
  pub file_sized : file.filesize ≡ size
  pub placed : file.filepath ≡ ws.path
  pub receiving : IsReceiving d b file
  pub to_come : (j : ℕ) → j < file_blocks size b → missing d file j ≡ leb k j
  pub remaining : file.blocks_remaining + k ≡ file_blocks size b
  pub reach : k < file_blocks size b → k < file.block_offset + 31
  pub held : k < file_blocks size b → ws.held k c.world
  pub saved : k ≡ file_blocks size b → ws.saved c.world

-- A context that receives a file of which every block is to come.
pub begins :
    {d : Deps} (ws : Worlds d) (b : ℕ) (c : SmContext d) (f : FileContext d)
    → c.active_interface ≡ some (primary f)
    → c.config.block_size ≡ b
    → IsReceiving d b f
    → ((j : ℕ) → j < file_blocks f.filesize b → missing d f j ≡ true)
    → f.filepath ≡ ws.path
    → ws.held 0 c.world
    → (a : Arrived ws b f.filesize 0 c) × (a.file ≡ f)
begins {d} ws b c f a s r all p h = (
  record {
    file = f;
    active = a;
    sized = s;
    file_sized = refl;
    placed = p;
    receiving = r;
    to_come = λ j l. all j l ∙ ground arith;
    remaining =
        omega (arith, r.counted, count_below-all (file_blocks f.filesize b) (missing d f) all);
    reach = λ l. omega arith;
    held = λ l. h;
    saved = λ e. absurd (omega (arith, e, r.in_file));
  },
  refl,
)
