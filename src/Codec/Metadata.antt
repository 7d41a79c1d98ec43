-- ===== src/Codec/Metadata.antt =====
-- src/codec.rs: how `codec_load_metadata` ends.
use native.Mathlib.Decide.{ℕ_discrete}
use imageglass_ithmb_plugin.Prelude.{
  ℕ, ◌≡◌, ◌≢◌, inl, inr, refl, ◌∙◌, List, none, some, arith, Option-cases, ==-true, ==-false,
}
use imageglass_ithmb_plugin.Types.{IgStatus, Result, IgStringRef}
use imageglass_ithmb_plugin.World.{World, Outcome, done, ◌>>=◌, catch_unwind_or}
use imageglass_ithmb_plugin.Strings.{Str}
use imageglass_ithmb_plugin.Strings.Access.{IsReadable, decoded_string, utf16_to_string_readable}
use imageglass_ithmb_plugin.Env.{Env}
use imageglass_ithmb_plugin.FileIo.{read_ithmb_prefix}
use imageglass_ithmb_plugin.FileIo.Bounds.{
  IsPrefixRead, read_ithmb_prefix_iff, read_ithmb_prefix_error,
}
use imageglass_ithmb_plugin.Codec.{i32_from_be_bytes, load_prefix, codec_load_metadata}
use imageglass_ithmb_plugin.Codec.Profiles.{HasDimensions, with_info, prefix_ends}

-- A call that has filled the struct from the prefix of the file that the path names.
pub record Fills (env : Env) (path : IgStringRef) (info : ℕ) (w : World) (o : Outcome IgStatus)
    : Type 0 where
  pub path_str : Str
  pub buf : List ℕ
  pub size : ℕ
  pub width : ℕ
  pub height : ℕ
  pub writable : info ≢ 0
  pub named : decoded_string path.data_ptr path.length ≡ some path_str
  pub prefix : IsPrefixRead env path_str buf size
  pub known : HasDimensions env (i32_from_be_bytes buf) width height
  pub ends : o ≡ done IgStatus.ok (with_info w info width height size)

-- The two ends of a call.
pub data LoadEnds (env : Env) (path : IgStringRef) (info : ℕ) (w : World) (o : Outcome IgStatus)
    : Type 0 where
  fills : Fills env path info w o → LoadEnds env path info w o
  refuses :
      (status : IgStatus) → status ≢ IgStatus.ok → o ≡ done status w → LoadEnds env path info w o

module _ (env : Env) (path : IgStringRef) (info : ℕ) (w : World) (readable : IsReadable path) where
  null_info : info ≡ 0 → codec_load_metadata env path info w ≡ done IgStatus.invalid_arg w
  unfolding codec_load_metadata
  null_info h = rw (codec_load_metadata, catch_unwind_or, ==-true _ _ h) refl

  no_path :
      info ≢ 0
      → decoded_string path.data_ptr path.length ≡ none
      → codec_load_metadata env path info w ≡ done IgStatus.invalid_arg w
  unfolding codec_load_metadata
  no_path h e =
      rw
        (
          codec_load_metadata,
          catch_unwind_or,
          ==-false _ _ h,
          ◌>>=◌,
          utf16_to_string_readable path w readable,
          e,
        )
        refl

  unread :
      (p : Str) (s : IgStatus)
      → info ≢ 0
      → decoded_string path.data_ptr path.length ≡ some p
      → read_ithmb_prefix env p ≡ Result.err s
      → codec_load_metadata env path info w ≡ done s w
  unfolding codec_load_metadata
  unread p s h e r =
      rw
        (
          codec_load_metadata,
          catch_unwind_or,
          ==-false _ _ h,
          ◌>>=◌,
          utf16_to_string_readable path w readable,
          e,
          r,
        )
        refl

  read_prefix :
      (p : Str) (buf : List ℕ) (size : ℕ)
      → info ≢ 0
      → decoded_string path.data_ptr path.length ≡ some p
      → read_ithmb_prefix env p ≡ Result.ok (buf, size)
      → codec_load_metadata env path info w
        ≡ catch_unwind_or IgStatus.internal (load_prefix env info buf size) w
  unfolding codec_load_metadata
  read_prefix p buf size h e r =
      rw
        (
          codec_load_metadata,
          catch_unwind_or,
          ==-false _ _ h,
          ◌>>=◌,
          utf16_to_string_readable path w readable,
          e,
          r,
        )
        refl

  caught :
      (s : IgStatus) (v : World) (o : Outcome IgStatus)
      → o ≡ done s v
      → catch_unwind_or IgStatus.internal (λ u. o) w ≡ done s v
  caught s v o e = rw e refl

  result_ends :
      (p : Str) (r : Result (List ℕ × ℕ))
      → info ≢ 0
      → decoded_string path.data_ptr path.length ≡ some p
      → read_ithmb_prefix env p ≡ r
      → LoadEnds env path info w (codec_load_metadata env path info w)
  result_ends p (Result.err s) h e r =
      refuses s (λ q. ground (arith, read_ithmb_prefix_error env p s r)) (unread p s h e r)
  result_ends p (Result.ok (buf, size)) h e r =
      let run = read_prefix p buf size h e r in
      elim (prefix_ends env info buf size w) [
        | inl (width, height, dims, q) ↦ fills (record {
          path_str = p;
          buf = buf;
          size = size;
          width = width;
          height = height;
          writable = h;
          named = e;
          prefix = (read_ithmb_prefix_iff env p buf size).0 r;
          known = dims;
          ends =
              run
              ∙ caught IgStatus.ok (with_info w info width height size)
                  (load_prefix env info buf size w) q;
        })
        | inr (s, bad, q) ↦ refuses s bad (run ∙ caught s w (load_prefix env info buf size w) q)
      ]

  -- On a readable path a call returns. Either it returns `Ok`, the path names a file whose
  -- prefix was read, the dimensions are those of the first device profile that describes some or
  -- else of the profile database, and the struct holds them and nothing else has changed; or it
  -- returns another status and nothing has changed.
  pub codec_load_metadata-LoadEnds : LoadEnds env path info w (codec_load_metadata env path info w)
  codec_load_metadata-LoadEnds = elim (ℕ_discrete info 0) [
    | yes h ↦ refuses IgStatus.invalid_arg (λ q. cc q) (null_info h)
    | no h ↦ elim (Option-cases (decoded_string path.data_ptr path.length)) [
      | inl absent ↦ refuses IgStatus.invalid_arg (λ q. cc q) (no_path h absent)
      | inr (p, e) ↦ result_ends p (read_ithmb_prefix env p) h e refl
    ]
  ]
