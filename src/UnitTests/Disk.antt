-- ===== src/UnitTests/Disk.antt =====
-- The file system as the unit tests of src/decode.rs and src/codec.rs use it: they write a file
-- first, so that what can be read is a state.
use imageglass_ithmb_plugin.Prelude.{
  ℕ, ◌≡◌, ◌≢◌, ◌<◌, ◌^◌, ◌++◌, List, [], Option, none, some, All, codes, length,
}
use imageglass_ithmb_plugin.Strings.{Str, encode_utf16}
use imageglass_ithmb_plugin.Strings.RoundTrip.{IsScalar}
use imageglass_ithmb_plugin.Env.{Env}

pub record FileSystem (Disk : Type 0) : Type 0 where
  pub metadata_len : Disk → Str → Option ℕ
  pub read_file : Disk → Str → Option (List ℕ)
  pub open_file : Disk → Str → Option (List ℕ)
  -- `std::fs::write(path, contents)`.
  pub write : Disk → Str → List ℕ → Option Disk
  -- `std::fs::remove_file(path).ok()`.
  pub remove_file : Disk → Str → Disk
  -- `std::env::temp_dir().join(name)`.
  pub temp_file : Str → Str
  -- `std::process::id()` as it is shown, and `std::thread::current().name()`.
  pub process_id : Str
  pub thread_name : Option Str

-- What the plugin can read of a disk.
abbrev pub env_on : {Disk : Type 0} → FileSystem Disk → Disk → Env → Env
env_on fs disk env = record env {
  metadata_len = fs.metadata_len disk;
  read_file = fs.read_file disk;
  open_file = fs.open_file disk;
}

abbrev unwrap_or : Option Str → Str → Str
unwrap_or none s = s
unwrap_or (some t) s = t

-- The name of a fixture file.
unfoldable pub fixture_path : {Disk : Type 0} → FileSystem Disk → Str → Str
fixture_path fs prefix =
    fs.temp_file (
      prefix
      ++ fs.process_id
      ++ codes "-"
      ++ unwrap_or fs.thread_name (codes "t")
      ++ codes ".ithmb")

-- A file that was written has what was written in it.
pub record Stores {Disk : Type 0} (fs : FileSystem Disk) : Type 0 where
  pub sized :
      (d d' : Disk) (p : Str) (bytes : List ℕ)
      → fs.write d p bytes ≡ some d'
      → fs.metadata_len d' p ≡ some (length bytes)
  pub reads :
      (d d' : Disk) (p : Str) (bytes : List ℕ)
      → fs.write d p bytes ≡ some d'
      → fs.read_file d' p ≡ some bytes
  pub opens :
      (d d' : Disk) (p : Str) (bytes : List ℕ)
      → fs.write d p bytes ≡ some d'
      → fs.open_file d' p ≡ some bytes

-- A path that a string reference can carry.
pub record IsCarried (path : Str) : Type 0 where
  pub not_empty : path ≢ []
  pub scalar : All IsScalar path
  pub short : length (encode_utf16 path) < 2 ^ 31
