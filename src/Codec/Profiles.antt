-- ===== src/Codec/Profiles.antt =====
-- src/codec.rs: the device profiles and the profile database in `codec_load_metadata`.
use imageglass_ithmb_plugin.Prelude.{
  ℕ, ◌≡◌, ◌≢◌, ◌⊎◌, inl, inr, refl, ◌∙◌, List, Option, none, some, Option-cases,
}
use imageglass_ithmb_plugin.Prelude.Int.{ℤ, pos}
use imageglass_ithmb_plugin.Prelude.Machine.{as_i32, as_i64, as_usize}
use imageglass_ithmb_plugin.Types.{IgStatus, IgImageInfo, null}
use imageglass_ithmb_plugin.World.{World, done, update}
use imageglass_ithmb_plugin.Env.{Env, Profile}
use imageglass_ithmb_plugin.Codec.{
  i32_from_be_bytes, first_dimensions, image_info, load_from_profile, load_prefix,
}

-- Where the dimensions of a format come from: a device profile whose description has some, or else
-- the display size in the profile database.
pub data HasDimensions (env : Env) (prefix : ℤ) (width height : ℕ) : Type 0 where
  described :
      first_dimensions (env.find_formats_by_id prefix) ≡ some (width, height)
      → HasDimensions env prefix width height
  built_in :
      (db : ℤ → Option Profile) (profile : Profile)
      → first_dimensions (env.find_formats_by_id prefix) ≡ none
      → env.load_builtin ≡ some db
      → db prefix ≡ some profile
      → width ≡ as_usize profile.display_width
      → height ≡ as_usize profile.display_height
      → HasDimensions env prefix width height

-- The fields that the host finds.
abbrev pub filled_info : ℕ → ℕ → ℕ → IgImageInfo
filled_info width height size = record {
  width = as_i32 (pos width);
  height = as_i32 (pos height);
  pixel_format = pos 1;
  has_alpha = pos 1;
  hdr_transfer_fn = pos 0;
  color_space = pos 1;
  orientation = pos 0;
  frame_count = pos 1;
  file_size_bytes = as_i64 (pos size);
  icc_profile_data = null;
  icc_profile_size = pos 0;
}

abbrev pub with_info : World → ℕ → ℕ → ℕ → ℕ → World
with_info w info width height size = record w {
  image_infos = update w.image_infos info (filled_info width height size);
}

module _ (env : Env) (info : ℕ) (buf : List ℕ) (size : ℕ) (w : World) where
  abbrev pub prefix_id : ℤ
  prefix_id = i32_from_be_bytes buf

  abbrev pub PrefixEnds : Type 0
  PrefixEnds =
      ((width : ℕ) × (height : ℕ) × HasDimensions env prefix_id width height
        × (load_prefix env info buf size w ≡ done IgStatus.ok (with_info w info width height size)))
      ⊎ ((status : IgStatus) × (status ≢ IgStatus.ok)
          × (load_prefix env info buf size w ≡ done status w))

  by_description :
      (width height : ℕ)
      → first_dimensions (env.find_formats_by_id prefix_id) ≡ some (width, height)
      → load_prefix env info buf size w ≡ done IgStatus.ok (with_info w info width height size)
  unfolding load_prefix image_info
  by_description width height e = rw (load_prefix, e) refl

  by_profile :
      first_dimensions (env.find_formats_by_id prefix_id) ≡ none
      → load_prefix env info buf size w ≡ load_from_profile env info prefix_id size w
  unfolding load_prefix
  by_profile e = rw (load_prefix, e) refl

  no_database :
      env.load_builtin ≡ none
      → load_from_profile env info prefix_id size w ≡ done IgStatus.internal w
  unfolding load_from_profile
  no_database e = rw (load_from_profile, e) refl

  no_profile :
      (db : ℤ → Option Profile)
      → env.load_builtin ≡ some db
      → db prefix_id ≡ none
      → load_from_profile env info prefix_id size w ≡ done IgStatus.not_implemented w
  unfolding load_from_profile
  no_profile db e f = rw (load_from_profile, e, f) refl

  one_profile :
      (db : ℤ → Option Profile) (p : Profile)
      → env.load_builtin ≡ some db
      → db prefix_id ≡ some p
      → load_from_profile env info prefix_id size w
        ≡ done IgStatus.ok
            (with_info w info (as_usize p.display_width) (as_usize p.display_height) size)
  unfolding load_from_profile image_info
  one_profile db p e f = rw (load_from_profile, e, f) refl

  profile_ends : first_dimensions (env.find_formats_by_id prefix_id) ≡ none → PrefixEnds
  profile_ends undescribed = elim (Option-cases env.load_builtin) [
    | inl e ↦ inr (IgStatus.internal, (λ q. cc q), by_profile undescribed ∙ no_database e)
    | inr (db, e) ↦ elim (Option-cases (db prefix_id)) [
      | inl f ↦
          inr (IgStatus.not_implemented, (λ q. cc q), by_profile undescribed ∙ no_profile db e f)
      | inr (p, f) ↦ inl (
        as_usize p.display_width,
        as_usize p.display_height,
        built_in db p undescribed e f refl refl,
        by_profile undescribed ∙ one_profile db p e f,
      )
    ]
  ]

  -- Past the read of the prefix the struct is filled, or nothing has changed.
  pub prefix_ends : PrefixEnds
  prefix_ends = elim (Option-cases (first_dimensions (env.find_formats_by_id prefix_id))) [
    | inl undescribed ↦ profile_ends undescribed
    | inr (p, e) ↦ inl (p.0, p.1, described e, by_description p.0 p.1 e)
  ]
