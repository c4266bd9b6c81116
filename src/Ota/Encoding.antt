-- ===== src/Ota/Encoding.antt =====
-- src/ota/encoding/mod.rs: the bitmap of blocks and the context of the file that is received.
pub mod Json
pub mod Cbor
use rustot.Prelude.{
  ℕ, ◌+◌, ◌-◌, ◌/◌, ◌%◌, ◌^◌, min, Bool, true, false, Option, none, some, List, [], ◌∷◌, Outcome,
  ok, err, panic, if◌then◌else◌, ◌==◌, Str, codes, ok_or, get_elem?,
}
use rustot.Prelude.Fallible.{◌>>=◌}
use rustot.Deps.{Deps}
use rustot.Ota.Config.{Config, usize, usize_sub, u32}
use rustot.Ota.Error.{OtaError}
use rustot.Ota.Version.{Version, to_string, from_str}
use rustot.Ota.Encoding.Json.{
  Signature, FileDescription, OtaJob, signature, reason_from_str, is_self_test_reason,
}

-- `(file_size + block_size - 1) / block_size` on `usize`. Rust panics at a divisor of 0.
unfoldable pub total_blocks : {E : Type 0} → ℕ → ℕ → Outcome E ℕ
total_blocks file_size block_size =
    if block_size == 0
    then panic
    else ok (usize_sub (usize (file_size + block_size)) 1 / block_size)

-- `heapless::String::from`: panics where the text is longer than the capacity.
unfoldable pub string_from : {E : Type 0} → Deps → ℕ → Str → Outcome E Str
string_from d n s = if d.fits n s then ok s else panic

unfoldable pub string_from? : {E : Type 0} → Deps → ℕ → Option Str → Outcome E (Option Str)
unfolding string_from
string_from? d n none = ok none
string_from? d n (some s) = do t ← string_from d n s; ok (some t)

-- `Bitmap::new`: one bit for each block from the offset on, 31 at most.
unfoldable pub new_bitmap : {E : Type 0} (d : Deps) → ℕ → ℕ → ℕ → Outcome E d.Bits
new_bitmap d file_size block_size block_offset = do
  total_num_blocks ← total_blocks file_size block_size
  ok (d.mask (min (32 - 1) (usize_sub total_num_blocks block_offset)))

pub record FileContext (d : Deps) : Type 0 where
  pub filepath : Str
  pub filesize : ℕ  -- usize
  pub fileid : ℕ  -- u8
  pub certfile : Str
  pub update_data_url : Option Str
  pub auth_scheme : Option Str
  pub signature : Signature
  pub file_type : Option ℕ  -- u32
  pub status_details : d.Map
  pub block_offset : ℕ  -- u32
  pub blocks_remaining : ℕ  -- usize
  pub request_block_remaining : ℕ  -- u32
  pub job_name : Str
  pub stream_name : Str
  pub bitmap : d.Bits

-- The status details that were given, or new ones that name the running version.
initial_status : (d : Deps) → Option d.Map → Version → Outcome OtaError d.Map
initial_status d (some details) current_version = ok details
initial_status d none current_version = do
  key ← string_from d 15 (codes "updated_by")
  ok_or OtaError.overflow (d.insert key (to_string current_version) d.new_map)

unfoldable pub new_from :
    (d : Deps)
    → Str
    → OtaJob
    → Option d.Map
    → ℕ
    → Config
    → Version
    → Outcome OtaError (FileContext d)
unfolding initial_status
new_from d job_name ota_job status_details file_idx config current_version = do
  file_desc ← ok_or OtaError.invalid_file (get_elem? ota_job.files file_idx)
  status ← initial_status d status_details current_version
  sig ← signature file_desc
  bitmap ← new_bitmap d file_desc.filesize config.block_size 0
  filepath ← string_from d 64 file_desc.filepath
  certfile ← string_from d 64 file_desc.certfile
  url ← string_from? d 64 file_desc.update_data_url
  scheme ← string_from? d 64 file_desc.auth_scheme
  name ← string_from d 64 job_name
  blocks ← total_blocks file_desc.filesize config.block_size
  stream ← string_from d 64 ota_job.streamname
  ok (record {
    filepath = filepath;
    filesize = file_desc.filesize;
    fileid = file_desc.fileid;
    certfile = certfile;
    update_data_url = url;
    auth_scheme = scheme;
    signature = sig;
    file_type = file_desc.file_type;
    status_details = status;
    block_offset = 0;
    blocks_remaining = blocks;
    request_block_remaining = u32 (d.ones bitmap);
    job_name = name;
    stream_name = stream;
    bitmap = bitmap;
  })

-- Whether the job's status details say that it is in self test.
unfoldable pub self_test : (d : Deps) → FileContext d → Bool
self_test d file_ctx = elim (d.lookup file_ctx.status_details (codes "self_test")) [
  | none ↦ false
  | some f ↦ elim (reason_from_str f) [ none ↦ false | some reason ↦ is_self_test_reason reason ]
]

unfoldable pub updated_by : (d : Deps) → FileContext d → Option Version
updated_by d file_ctx = elim (d.lookup file_ctx.status_details (codes "updated_by")) [
  | none ↦ none
  | some s ↦ from_str s
]

-- `status_details.insert(String::from(key), String::from(value)).map_err(|_| OtaError::Overflow)`
unfoldable pub insert_status :
    (d : Deps) → Str → Str → FileContext d → Outcome OtaError (FileContext d)
unfolding string_from
insert_status d key value file_ctx = do
  k ← string_from d 15 key
  v ← string_from d 11 value
  details ← ok_or OtaError.overflow (d.insert k v file_ctx.status_details)
  ok (record file_ctx { status_details = details })
