-- ===== src/WebGl/Texture.antt =====
-- class Texture of ws-wasm-player/lib/webgl.js. A texture is its WebGL name.
use Prim.Native.String.{String}
use rtsp_wasm_player.Base.{ℕ, Option, none, some, List, [], ◌∷◌}
use rtsp_wasm_player.WebGl.Context.{
  WebGl, Format, luminance, mag_filter_linear, min_filter_linear, wrap_s_clamp, wrap_t_clamp,
  create_texture, active_texture, bind_texture, tex_parameter, tex_image, uniform_1i, calls,
}

-- `format || gl.LUMINANCE`
abbrev pub or_luminance : Option Format → Format
or_luminance none = luminance
or_luminance (some f) = f

module _ (gl : WebGl) where
  -- The constructor: the texture and the context's state after it.
  unfoldable pub texture : gl.State → ℕ × gl.State
  texture s =
      let t = gl.new_texture s in
      (
        t,
        calls gl
            (create_texture
              ∷ bind_texture t
              ∷ tex_parameter mag_filter_linear
              ∷ tex_parameter min_filter_linear
              ∷ tex_parameter wrap_s_clamp
              ∷ tex_parameter wrap_t_clamp
              ∷ [])
            s,
      )

  unfoldable pub bind : ℕ → ℕ → String → gl.State → gl.State
  bind t n name s = calls gl (active_texture n ∷ bind_texture t ∷ uniform_1i name n ∷ []) s

  unfoldable pub fill : ℕ → ℕ → ℕ → List ℕ → Option Format → gl.State → gl.State
  fill t width height pixels format s =
      calls gl
        (bind_texture t
          ∷ tex_image (record {
            format = or_luminance format;
            width = width;
            height = height;
            pixels = pixels;
          })
          ∷ [])
        s
