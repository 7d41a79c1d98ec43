-- ===== src/FileIo.antt =====
-- src/file_io.rs: the size check, the whole read and the read of the 4-byte prefix.
pub mod Bounds
use imageglass_ithmb_plugin.Prelude.{
  ℕ, ◌*◌, List, Option, none, some, ltb, if◌then◌else◌, length, take,
}
use imageglass_ithmb_plugin.Types.{IgStatus, Result, ◌>>=?◌}
use imageglass_ithmb_plugin.Strings.{Str}
use imageglass_ithmb_plugin.Env.{Env}

-- 8 MiB.
abbrev pub max_file_size_bytes : ℕ
max_file_size_bytes = 8 * 1024 * 1024

-- `map_err(|_| status)`, from an error that is not looked at.
abbrev pub or_status {ℓ} : {A : Type ℓ} → Option A → IgStatus → Result A
or_status none status = Result.err status
or_status (some a) status = Result.ok a

unfoldable pub check_file_size : Env → Str → Result ℕ
check_file_size env path = or_status (env.metadata_len path) IgStatus.io_error >>=? λ file_size.
    if ltb max_file_size_bytes file_size
    then Result.err IgStatus.decode_failed
    else Result.ok file_size

unfoldable pub read_ithmb_file : Env → Str → Result (List ℕ)
unfolding check_file_size
read_ithmb_file env path = check_file_size env path >>=? λ _.
    or_status (env.read_file path) IgStatus.io_error >>=? λ bytes.
    if ltb (length bytes) 4 then Result.err IgStatus.decode_failed else Result.ok bytes

-- `file.read_exact(&mut buf)` with a buffer of four bytes.
abbrev read_exact_4 : List ℕ → Option (List ℕ)
read_exact_4 readable = if ltb (length readable) 4 then none else some (take 4 readable)

unfoldable pub read_ithmb_prefix : Env → Str → Result (List ℕ × ℕ)
unfolding check_file_size
read_ithmb_prefix env path = check_file_size env path >>=? λ file_size.
    or_status (env.open_file path) IgStatus.io_error >>=? λ file.
    or_status (read_exact_4 file) IgStatus.decode_failed >>=? λ buf. Result.ok (buf, file_size)
