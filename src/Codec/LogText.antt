-- ===== src/Codec/LogText.antt =====
-- src/codec.rs: the extension in the log message of `codec_can_handle_extension`.
use imageglass_ithmb_plugin.Prelude.{
  ℕ, ◌^◌, ◌≤◌, ◌<◌, ◌≡◌, refl, sym, ◌⊎◌, inl, inr, [], ◌∷◌, List, map, take, length, some, false,
  arith, All, lt→ltb, le→ltb, codes, ◌++◌,
}
use imageglass_ithmb_plugin.Prelude.Int.{pos}
use imageglass_ithmb_plugin.Types.{ref, IgStringRef}
use imageglass_ithmb_plugin.World.{World, done, ◌>>=◌, from_raw_parts}
use imageglass_ithmb_plugin.Strings.{is_absent}
use imageglass_ithmb_plugin.Logging.{LogLevel}
use imageglass_ithmb_plugin.Logging.Effect.{IsHosted, OnlyLogs, log-OnlyLogs, with_core-OnlyLogs}
use imageglass_ithmb_plugin.Prelude.Machine.{as_usize}
use imageglass_ithmb_plugin.Codec.{
  scan_utf8, log_byte, extension_text, from_utf8_unchecked, log_extension,
}

scan_ascii : (bytes : List ℕ) → All (λ b. b < 0x80) bytes → scan_utf8 0 0 0 0 bytes ≡ some bytes
unfolding scan_utf8
scan_ascii [] h = refl
scan_ascii (b ∷ bytes) h = rw (scan_ascii bytes h.1, lt→ltb b 0x80 h.0) refl

-- A unit that the log message can show: ASCII, or a unit that it replaces by a question mark.
abbrev pub IsLoggable : ℕ → Type 0
IsLoggable u = (u < 0x80) ⊎ (256 ≤ u)

log_bytes_ascii : (units : List ℕ) → All IsLoggable units → All (λ b. b < 0x80) (map log_byte units)
log_bytes_ascii [] h = tt
log_bytes_ascii (u ∷ units) h = (byte h.0, log_bytes_ascii units h.1)
  where
    byte : IsLoggable u → log_byte u < 0x80
    byte (inl small) = ground arith
    byte (inr large) = ground arith

-- What the host must provide with an extension: `n` readable units, counted by an `i32`.
pub record HasUnits (ext : IgStringRef) (xs : List ℕ) : Type 0 where
  pub units : List ℕ
  pub n : ℕ
  pub located : ext.data_ptr ≡ ref units
  pub counted : ext.length ≡ pos n
  pub positive : 0 < n
  pub small : n < 2 ^ 31
  pub readable : n ≤ length units
  pub shown : xs ≡ take n units

pub as_usize_small : (n : ℕ) → n < 2 ^ 31 → as_usize (pos n) ≡ n
as_usize_small n h = ground arith

pub unfold_present :
    (ext : IgStringRef) (xs : List ℕ) (w : World)
    → HasUnits ext xs
    → (is_absent ext ≡ false) × (from_raw_parts ext.data_ptr (as_usize ext.length) w ≡ done xs w)
unfold_present ext xs w h = (
  rw (h.located, h.counted) (ground (arith, h.positive)),
  rw
      (
        h.located,
        h.counted,
        as_usize_small h.n h.small,
        le→ltb (length h.units) h.n h.readable,
        sym h.shown,
      )
      refl,
)

extension_text_shown :
    (ext : IgStringRef) (xs : List ℕ) (w : World)
    → HasUnits ext xs
    → All IsLoggable (take 32 xs)
    → extension_text ext w ≡ done (map log_byte (take 32 xs)) w
unfolding extension_text from_utf8_unchecked
extension_text_shown ext xs w h loggable =
    let (present, read) = unfold_present ext xs w h in
    rw
      (
        extension_text,
        present,
        ◌>>=◌,
        read,
        from_utf8_unchecked,
        scan_ascii (map log_byte (take 32 xs)) (log_bytes_ascii (take 32 xs) loggable),
      )
      refl

pub log_extension-OnlyLogs :
    (ext : IgStringRef) (xs : List ℕ) (w : World)
    → HasUnits ext xs
    → All IsLoggable (take 32 xs)
    → IsHosted w
    → OnlyLogs w (log_extension ext w)
unfolding log_extension
log_extension-OnlyLogs ext xs w h loggable hosted = with_core-OnlyLogs _ w hosted λ core.
    let (calls, e) =
      log-OnlyLogs core LogLevel.info
        (codes "ithmb-codec: can_handle_extension('" ++ map log_byte (take 32 xs) ++ codes "')")
        w in
    (calls, rw (◌>>=◌, extension_text_shown ext xs w h loggable) e)
