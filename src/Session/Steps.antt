-- ===== src/Session/Steps.antt =====
-- A host at work: calls of src/decode.rs, src/codec.rs and src/lib.rs in any order, with what the
-- host and other threads may do to the shared state in between.
use imageglass_ithmb_plugin.Prelude.{ℕ, List, All, take, ◌≡◌, some, true}
use imageglass_ithmb_plugin.Prelude.Int.{ℤ}
use imageglass_ithmb_plugin.Types.{
  IgStatus, IgStringRef, IgPixelBuffer, Ptr, IgHostApi, IgPluginApi,
}
use imageglass_ithmb_plugin.World.{World, done, update}
use imageglass_ithmb_plugin.Registry.{BufferRegistry}
use imageglass_ithmb_plugin.Strings.Access.{IsReadable}
use imageglass_ithmb_plugin.Env.{Env}
use imageglass_ithmb_plugin.Strings.{Str}
use imageglass_ithmb_plugin.State.{extensions_array}
use imageglass_ithmb_plugin.Plugin.{ig_plugin_get_api, plugin_get_codec, plugin_shutdown}
use imageglass_ithmb_plugin.Codec.{
  codec_get_capability, codec_load_metadata, codec_can_handle_extension,
}
use imageglass_ithmb_plugin.Codec.LogText.{HasUnits, IsLoggable}
use imageglass_ithmb_plugin.Decode.{codec_decode_static_raster, codec_free_pixel_buffer}
use imageglass_ithmb_plugin.Decode.Contract.{IsSane}

-- A call that leaves blocks, structs and registry alone.
pub data Query (w w' : World) : Type 0 where
  loads :
      (env : Env) (path : IgStringRef) (info : ℕ) (status : IgStatus)
      → IsReadable path
      → codec_load_metadata env path info w ≡ done status w'
      → Query w w'
  matches :
      (ext : IgStringRef) (xs : List ℕ) (answer : ℤ)
      → HasUnits ext xs
      → All IsLoggable (take 32 xs)
      → w.plugin_extensions ≡ some extensions_array
      → codec_can_handle_extension ext w ≡ done answer w'
      → Query w w'
  enters :
      (version : Str) (v : ℤ) (h : Ptr IgHostApi) (table : Ptr IgPluginApi)
      → ig_plugin_get_api version v h w ≡ done table w'
      → Query w w'
  asks_capability :
      (slot : ℕ) (status : IgStatus) → codec_get_capability slot w ≡ done status w' → Query w w'
  asks_codec :
      (index : ℤ) (slot : ℕ) (status : IgStatus)
      → plugin_get_codec index slot w ≡ done status w'
      → Query w w'
  shuts_down : plugin_shutdown w ≡ done tt w' → Query w w'

-- One step of a session. The environment may differ from call to call.
pub data Step (w w' : World) : Type 0 where
  decodes :
      (env : Env) (path : IgStringRef) (frame_index : ℤ) (buffer : ℕ) (status : IgStatus)
      → IsSane env
      → IsReadable path
      → codec_decode_static_raster env path frame_index buffer w ≡ done status w'
      → Step w w'
  frees : (buffer : ℕ) → codec_free_pixel_buffer buffer w ≡ done tt w' → Step w w'
  queries : Query w w' → Step w w'
  -- The host writes anything into a struct of its own.
  writes :
      (slot : ℕ) (b : IgPixelBuffer)
      → w' ≡ record w { pixel_buffers = update w.pixel_buffers slot b }
      → Step w w'
  -- A thread panics while it holds the registry's lock.
  poisons :
      (r : BufferRegistry)
      → w.buffer_registry ≡ some r
      → w' ≡ record w { buffer_registry = some (record r { poisoned = true }) }
      → Step w w'

pub data Reach (w : World) : World → Type 0 where
  here : Reach w w
  next : {v u : World} → Reach w v → Step v u → Reach w u
