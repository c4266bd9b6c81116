-- ===== src/Examples/FileHandler.antt =====
-- examples/common/file_handler.rs: a platform layer that collects a file in memory and writes it to the
-- disk when it is closed.
pub mod Bytes
pub mod Buffer
pub mod Assembled
pub mod Assembly
pub mod Transfer
pub mod Prefix
pub mod Update
pub mod Stored
use rustot.Prelude.{
  ℕ, zero, suc, ◌+◌, ◌≡◌, Option, none, some, List, [], ◌∷◌, Outcome, ok, err, panic, map_err,
  length, Str,
}
use rustot.Prelude.Stateful.{Exec, pure}
use rustot.Deps.{Deps}
use rustot.Ota.Encoding.{FileContext}
use rustot.Ota.Version.{new}
use rustot.Ota.Pal.{
  OtaPal, OtaPalError, PalImageState, default_activate_new_image, default_complete_callback,
}

-- `std::io::Cursor<Vec<u8>>`
pub record Cursor : Type 0 where
  pub inner : List ℕ
  pub position : ℕ

-- Bytes written at a position: a gap before it is filled with zeros.
unfoldable pub write_at : ℕ → List ℕ → List ℕ → List ℕ
write_at (suc n) bytes [] = 0 ∷ write_at n bytes []
write_at (suc n) bytes (x ∷ buf) = x ∷ write_at n bytes buf
write_at zero [] buf = buf
write_at zero (b ∷ bytes) [] = b ∷ write_at zero bytes []
write_at zero (b ∷ bytes) (x ∷ buf) = b ∷ write_at zero bytes buf

-- `Cursor::set_position` and then `write`, which always writes all the bytes.
unfoldable pub written : ℕ → List ℕ → Cursor → Cursor
unfolding write_at
written offset bytes c = record {
  inner = write_at offset bytes c.inner;
  position = offset + length bytes;
}

-- Where the `filebuf` of the handler stands in the world, and `File::create` with `write_all`.
pub record FileSystem (d : Deps) : Type 0 where
  pub filebuf : d.World → Option Cursor
  pub set_filebuf : Option Cursor → d.World → d.World
  pub save : Str → List ℕ → Exec d.World (Unit {0}) (Unit {0})

-- What is stored is read back, and a file on the disk is not the buffer.
pub record FileSystemLaws (d : Deps) (fs : FileSystem d) : Type 0 where
  pub filebuf-set_filebuf : (b : Option Cursor) (w : d.World) → fs.filebuf (fs.set_filebuf b w) ≡ b
  pub filebuf-save :
      (path : Str) (bytes : List ℕ) (w : d.World)
      → fs.filebuf (fs.save path bytes w).1 ≡ fs.filebuf w

module _ {d : Deps} (fs : FileSystem d) where
  unfoldable pub create_file_for_rx : FileContext d → Exec d.World OtaPalError (Unit {0})
  create_file_for_rx file w = (ok tt, fs.set_filebuf (some (record { inner = []; position = 0 })) w)

  close_buffer : Option Cursor → FileContext d → Exec d.World OtaPalError (Unit {0})
  close_buffer none file w = (err OtaPalError.bad_file_handle, w)
  close_buffer (some buf) file w =
      let r = fs.save file.filepath buf.inner w in
      (map_err (λ e. OtaPalError.file_write_failed) r.0, r.1)

  unfoldable pub close_file : FileContext d → Exec d.World OtaPalError (Unit {0})
  unfolding close_buffer
  close_file file w = close_buffer (fs.filebuf w) file w

  write_buffer : Option Cursor → ℕ → List ℕ → Exec d.World OtaPalError ℕ
  write_buffer none offset payload w = (err OtaPalError.bad_file_handle, w)
  write_buffer (some buf) offset payload w =
      (ok (length payload), fs.set_filebuf (some (written offset payload buf)) w)

  unfoldable pub write_block : FileContext d → ℕ → List ℕ → Exec d.World OtaPalError ℕ
  unfolding write_buffer
  write_block file offset payload w = write_buffer (fs.filebuf w) offset payload w

  -- The methods of `FileHandler` itself.
  own : OtaPal d
  own = record {
    abort = λ file. pure tt;
    activate_new_image = pure tt;
    create_file_for_rx = create_file_for_rx;
    get_platform_image_state = pure PalImageState.valid;
    set_platform_image_state = λ state. pure tt;
    reset_device = pure tt;
    close_file = close_file;
    write_block = write_block;
    complete_callback = λ event. pure tt;
    get_active_firmware_version = pure (new 0 1 0);
  }

  -- With the default methods of the trait.
  unfoldable pub file_handler : OtaPal d
  unfolding own
  file_handler =
      let activated = record own { activate_new_image = default_activate_new_image own } in
      record activated { complete_callback = default_complete_callback activated }
