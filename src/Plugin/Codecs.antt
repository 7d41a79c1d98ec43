-- ===== src/Plugin/Codecs.antt =====
-- src/lib.rs, `plugin_get_codec`: the codecs that a loaded plugin offers.
use imageglass_ithmb_plugin.Prelude.{
  ℕ, ◌≡◌, inl, inr, refl, ap, sym, ◌∙◌, none, some, Bool-cases, ◌==◌, if◌then◌else◌,
}
use imageglass_ithmb_plugin.Prelude.Int.{ℤ, pos, eqb_ℤ}
use imageglass_ithmb_plugin.Types.{IgStatus, Ptr, null, ref, IgCodecApi, IgHostApi, IgPluginApi}
use imageglass_ithmb_plugin.World.{
  World, PluginState, Outcome, done, update, catch_unwind_or, ◌>>=◌, ◌>>◌,
}
use imageglass_ithmb_plugin.Strings.{Str}
use imageglass_ithmb_plugin.State.{initialized, build_plugin_state, codec_api}
use imageglass_ithmb_plugin.Plugin.{ig_plugin_get_api, plugin_get_codec}
use imageglass_ithmb_plugin.Plugin.Entry.{
  Answers, accepted, refused, entered, ig_plugin_get_api-Answers,
}

-- The state with one codec slot of the host written.
abbrev pub offered : World → ℕ → Ptr IgCodecApi → World
offered w slot codec = record w { codec_slots = update w.codec_slots slot codec }

-- What a codec query answers where the one codec, at index 0, has the table `codec`.
abbrev pub Offers : World → IgCodecApi → ℤ → ℕ → Outcome IgStatus → Type 0
Offers w codec index slot o = o ≡ (
    if slot == 0
    then done IgStatus.invalid_arg w
    else done IgStatus.ok (offered w slot (if eqb_ℤ index (pos 0) then ref codec else null)))

get_codec_run :
    (w : World) (s : PluginState) (index : ℤ) (slot : ℕ)
    → w.plugin_state ≡ some s
    → Offers w s.codec_api index slot (plugin_get_codec index slot w)
unfolding plugin_get_codec
get_codec_run w s index slot e = elim (Bool-cases (slot == 0)) [
  | inl z ↦ rw (catch_unwind_or, z) refl
  | inr nz ↦ elim (Bool-cases (eqb_ℤ index (pos 0))) [
    | inl first ↦ rw (catch_unwind_or, nz, first, ◌>>=◌, e) refl
    | inr other ↦ rw (catch_unwind_or, nz, other, ◌>>◌, ◌>>=◌) refl
  ]
]

-- The state that the first entry call makes.
first_state :
    (version : Str) (api : IgHostApi) (w : World) (s : PluginState)
    → w.plugin_state ≡ none
    → (entered version api w).plugin_state ≡ some s
    → build_plugin_state version ≡ s
unfolding initialized
first_state version api w s e h = cc (rw e at h)

state_codec : (version : Str) → (build_plugin_state version).codec_api ≡ codec_api
unfolding build_plugin_state
state_codec version = refl

state_count : (version : Str) → (build_plugin_state version).plugin_api.info.codec_count ≡ pos 1
unfolding build_plugin_state
state_count version = refl

-- When no plugin state was set before and the entry point has returned a table: the table counts
-- one codec, and a codec query answers `InvalidArg` for a null slot and `Ok` for any other, with
-- the codec's table in the slot at index 0 and null at any other index, and nothing else
-- changed.
pub loaded-Offers :
    (version : Str) (v : ℤ) (h : Ptr IgHostApi) (w w1 : World) (table : IgPluginApi)
    → w.plugin_state ≡ none
    → ig_plugin_get_api version v h w ≡ done (ref table) w1
    → (index : ℤ) (slot : ℕ)
    → (table.info.codec_count ≡ pos 1)
      × Offers w1 codec_api index slot (plugin_get_codec index slot w1)
loaded-Offers version v h w w1 table e entry index slot =
    loaded_case (ig_plugin_get_api-Answers version v h w)
  where
    loaded_case :
        Answers version v h w (ig_plugin_get_api version v h w)
        → (table.info.codec_count ≡ pos 1)
          × Offers w1 codec_api index slot (plugin_get_codec index slot w1)
    loaded_case (accepted api c a) =
        let world : entered version api w ≡ w1 = cc (a.answers, entry) in
        let given : a.state.plugin_api ≡ table = cc (a.answers, entry) in
        let first : build_plugin_state version ≡ a.state =
          first_state version api w a.state e a.has_state in
        let count =
          ap (λ t. t.info.codec_count) (sym given)
          ∙ ap (λ s. s.plugin_api.info.codec_count) (sym first)
          ∙ state_count version in
        let codec = ap (λ s. s.codec_api) (sym first) ∙ state_codec version in
        (
          count,
          rw codec at (
              get_codec_run w1 a.state index slot
                (ap (λ x. x.plugin_state) (sym world) ∙ a.has_state)),
        )
    loaded_case (refused none_fits r) = absurd (cc (r, entry))
