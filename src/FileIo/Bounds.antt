-- ===== src/FileIo/Bounds.antt =====
-- src/file_io.rs: when the reads succeed, and with which status they fail.
use imageglass_ithmb_plugin.Prelude.{
  ℕ, ◌≤◌, ◌≡◌, ◌⊎◌, ◌↔◌, inl, inr, Option-cases, List, some, length, take, arith,
}
use imageglass_ithmb_plugin.Types.{IgStatus, Result}
use imageglass_ithmb_plugin.Strings.{Str}
use imageglass_ithmb_plugin.Env.{Env}
use imageglass_ithmb_plugin.FileIo.{max_file_size_bytes, read_ithmb_file, read_ithmb_prefix}

-- What a successful whole read says of the file.
pub record IsWholeRead (env : Env) (path : Str) (bytes : List ℕ) : Type 0 where
  pub size : ℕ
  pub sized : env.metadata_len path ≡ some size
  pub small : size ≤ max_file_size_bytes
  pub contents : env.read_file path ≡ some bytes
  pub long : 4 ≤ length bytes

read_ithmb_file_sound :
    (env : Env) (path : Str) (bytes : List ℕ)
    → read_ithmb_file env path ≡ Result.ok bytes
    → IsWholeRead env path bytes
unfolding read_ithmb_file
read_ithmb_file_sound env path bytes h = elim (Option-cases (env.metadata_len path)) [
  | inl missing ↦ absurd (ground arith)
  | inr (size, e) ↦ record {
    size = size;
    sized = e;
    small = ground arith;
    contents = ground arith;
    long = ground arith;
  }
]

read_ithmb_file_complete :
    (env : Env) (path : Str) (bytes : List ℕ)
    → IsWholeRead env path bytes
    → read_ithmb_file env path ≡ Result.ok bytes
unfolding read_ithmb_file
read_ithmb_file_complete env path bytes h = ground arith

-- A read fails as an input error or as a decoding error.
pub read_ithmb_file_error :
    (env : Env) (path : Str) (s : IgStatus)
    → read_ithmb_file env path ≡ Result.err s
    → (s ≡ IgStatus.io_error) ⊎ (s ≡ IgStatus.decode_failed)
unfolding read_ithmb_file
read_ithmb_file_error env path s h = ground arith

-- The whole read succeeds just where the size is known and at most 8 MiB and at least four bytes can
-- be read; it returns what was read.
pub read_ithmb_file_iff :
    (env : Env) (path : Str) (bytes : List ℕ)
    → (read_ithmb_file env path ≡ Result.ok bytes) ↔ IsWholeRead env path bytes
read_ithmb_file_iff env path bytes =
    (read_ithmb_file_sound env path bytes, read_ithmb_file_complete env path bytes)

-- What a successful read of the prefix says of the file.
pub record IsPrefixRead (env : Env) (path : Str) (buf : List ℕ) (size : ℕ) : Type 0 where
  pub readable : List ℕ
  pub sized : env.metadata_len path ≡ some size
  pub small : size ≤ max_file_size_bytes
  pub contents : env.open_file path ≡ some readable
  pub long : 4 ≤ length readable
  pub first : buf ≡ take 4 readable

read_ithmb_prefix_sound :
    (env : Env) (path : Str) (buf : List ℕ) (size : ℕ)
    → read_ithmb_prefix env path ≡ Result.ok (buf, size)
    → IsPrefixRead env path buf size
unfolding read_ithmb_prefix
read_ithmb_prefix_sound env path buf size h = elim (Option-cases (env.open_file path)) [
  | inl missing ↦ absurd (ground arith)
  | inr (readable, e) ↦ record {
    readable = readable;
    sized = ground arith;
    small = ground arith;
    contents = e;
    long = ground arith;
    first = ground arith;
  }
]

read_ithmb_prefix_complete :
    (env : Env) (path : Str) (buf : List ℕ) (size : ℕ)
    → IsPrefixRead env path buf size
    → read_ithmb_prefix env path ≡ Result.ok (buf, size)
unfolding read_ithmb_prefix
read_ithmb_prefix_complete env path buf size h = ground arith

-- The prefix read succeeds just where the size is known and at most 8 MiB and four bytes can be read;
-- it returns those four and the size.
pub read_ithmb_prefix_iff :
    (env : Env) (path : Str) (buf : List ℕ) (size : ℕ)
    → (read_ithmb_prefix env path ≡ Result.ok (buf, size)) ↔ IsPrefixRead env path buf size
read_ithmb_prefix_iff env path buf size =
    (read_ithmb_prefix_sound env path buf size, read_ithmb_prefix_complete env path buf size)

pub read_ithmb_prefix_error :
    (env : Env) (path : Str) (s : IgStatus)
    → read_ithmb_prefix env path ≡ Result.err s
    → (s ≡ IgStatus.io_error) ⊎ (s ≡ IgStatus.decode_failed)
unfolding read_ithmb_prefix
read_ithmb_prefix_error env path s h = ground arith
