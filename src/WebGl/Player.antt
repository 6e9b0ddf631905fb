-- ===== src/WebGl/Player.antt =====
-- class WebGLPlayer of ws-wasm-player/lib/webgl.js: construction, `#init` and `render`.
use Prim.Native.String.{String}
use rtsp_wasm_player.Base.{ℕ, ◌+◌, ◌-◌, ◌*◌, ◌/◌, ◌%◌, ◌^◌}
use rtsp_wasm_player.Base.{Option, none, some, List, [], ◌∷◌, ◌++◌, ltb, if◌then◌else◌, take, drop}
use rtsp_wasm_player.WebGl.Context.{
  WebGl, vertex, fragment, pixel_store_unpack_alignment, create_program, create_shader,
  shader_source, compile_shader, attach_shader, link_program, use_program, create_buffer,
  bind_buffer, buffer_data, enable_vertex_attrib, vertex_attrib_pointer, viewport, clear_color,
  clear_color_buffer, draw_triangle_strip, calls,
}
use rtsp_wasm_player.WebGl.Texture.{texture, bind, fill}

-- `gl.y`, `gl.u` and `gl.v`.
pub record Textures : Type 0 where
  pub y : ℕ
  pub u : ℕ
  pub v : ℕ

pub record FrameView : Type 0 where
  pub width : ℕ
  pub height : ℕ
  pub bytes : List ℕ

-- Both sources are joined by newlines.
abbrev pub vertex_shader_source : List String
vertex_shader_source =
    "attribute highp vec3 aPos;" ∷ "attribute vec2 aTexCoord;" ∷ "varying highp vec2 vTexCoord;"
    ∷ "void main(void) {" ∷ "  gl_Position = vec4(aPos, 1.0);" ∷ "  vTexCoord = aTexCoord;" ∷ "}"
    ∷ []

abbrev pub fragment_shader_source : List String
fragment_shader_source =
    "precision highp float;" ∷ "varying lowp vec2 vTexCoord;" ∷ "uniform sampler2D yTex;"
    ∷ "uniform sampler2D uTex;" ∷ "uniform sampler2D vTex;" ∷ "const mat4 YUV2RGB = mat4("
    ∷ "  1.1643828125,             0, 1.59602734375, -.87078515625,"
    ∷ "  1.1643828125, -.39176171875,    -.81296875,     .52959375,"
    ∷ "  1.1643828125,   2.017234375,             0,  -1.081390625,"
    ∷ "             0,             0,             0,             1" ∷ ");" ∷ "void main(void) {"
    ∷ "  // gl_FragColor = vec4(vTexCoord.x, vTexCoord.y, 0., 1.0);" ∷ "  gl_FragColor = vec4("
    ∷ "    texture2D(yTex, vTexCoord).x," ∷ "    texture2D(uTex, vTexCoord).x,"
    ∷ "    texture2D(vTex, vTexCoord).x," ∷ "    1" ∷ "  ) * YUV2RGB;" ∷ "}" ∷ []

-- What goes to the console when a shader has an info log.
abbrev pub compile_report : String → Option String → List String
compile_report title none = []
compile_report title (some msg) = title ∷ msg ∷ []

-- `x + (x >> k)` for a number x: the shift takes x to a signed 32-bit integer first, and rounds
-- down.
unfoldable pub add_shift : ℕ → ℕ → ℕ
add_shift x k =
    if ltb (x % 2 ^ 32) (2 ^ 31)
    then x + x % 2 ^ 32 / 2 ^ k
    else x - (2 ^ 32 - x % 2 ^ 32 + 2 ^ k - 1) / 2 ^ k

-- `bytes.subarray(begin, end)`, which ends at the array's end at the latest.
abbrev pub subarray : ℕ → ℕ → List ℕ → List ℕ
subarray begin end bytes = take (end - begin) (drop begin bytes)

module _ (gl : WebGl) where
  -- The calls of `#init` up to the first info log, and from there to the second.
  unfoldable pub compile_vertex : gl.State → gl.State
  compile_vertex = calls gl (
      pixel_store_unpack_alignment 1
      ∷ create_program
      ∷ create_shader vertex
      ∷ shader_source vertex vertex_shader_source
      ∷ compile_shader vertex
      ∷ [])

  unfoldable pub compile_fragment : gl.State → gl.State
  compile_fragment = calls gl (
      create_shader fragment
      ∷ shader_source fragment fragment_shader_source
      ∷ compile_shader fragment
      ∷ [])

  unfoldable pub link : gl.State → gl.State
  link = calls gl (attach_shader vertex ∷ attach_shader fragment ∷ link_program ∷ use_program ∷ [])

  -- 20 numbers of 4 bytes: 4 corners of 3 coordinates and 2 texture coordinates.
  unfoldable pub load_vertices : gl.State → gl.State
  load_vertices = calls gl (
      create_buffer
      ∷ bind_buffer
      ∷ buffer_data 80
      ∷ enable_vertex_attrib "aPos"
      ∷ vertex_attrib_pointer "aPos" 3 20 0
      ∷ enable_vertex_attrib "aTexCoord"
      ∷ vertex_attrib_pointer "aTexCoord" 2 20 12
      ∷ [])

  unfoldable pub make_textures : gl.State → Textures × gl.State
  make_textures s =
      let (y, s₁) = texture gl s in
      let (u, s₂) = texture gl s₁ in
      let (v, s₃) = texture gl s₂ in
      (
        record { y = y; u = u; v = v },
        bind gl v 2 "vTex" (bind gl u 1 "uTex" (bind gl y 0 "yTex" s₃)),
      )

  -- `#init` where the canvas gave a context: the textures, the state and the console's lines.
  unfoldable pub init : gl.State → Textures × gl.State × List String
  init s =
      let s₁ = compile_vertex s in
      let s₂ = compile_fragment s₁ in
      let s₃ = link s₂ in
      let (t, s₄) = make_textures (load_vertices s₃) in
      (
        t,
        s₄,
        compile_report "[ERROR] Vertex shader compile failed" (gl.shader_info_log vertex s₁)
            ++ compile_report "[ERROR] Fragment shader compile failed"
                (gl.shader_info_log fragment s₂)
            ++ (if gl.link_status s₃ then [] else "[ERROR] Shader link failed" ∷ []),
      )

  -- The constructor. `none` is a canvas without WebGL.
  unfoldable pub player : Option gl.State → Option (Textures × gl.State) × List String
  player none = (none, "[ERROR] WebGL not supported" ∷ [])
  player (some s) = let (t, s', log) = init s in (some (t, s'), log)

  -- The three uploads of `render`.
  unfoldable pub upload : Textures → FrameView → gl.State → gl.State
  upload t frame s =
      let len_y = frame.width * frame.height in
      let s₁ = fill gl t.y frame.width frame.height (subarray 0 len_y frame.bytes) none s in
      let s₂ =
        fill gl t.u (frame.width / 2) (frame.height / 2)
          (subarray len_y (add_shift len_y 2) frame.bytes) none s₁ in
      fill gl t.v (frame.width / 2) (frame.height / 2)
        (subarray (add_shift len_y 2) (add_shift len_y 1) frame.bytes) none s₂

  -- `render` on a canvas of the given size. Widths are C++ ints, so `>> 1` halves them.
  unfoldable pub render :
      Option (Textures × gl.State) → ℕ → ℕ → FrameView → Option (Textures × gl.State) × List String
  render none canvas_width canvas_height frame =
      (none, "[ERROR] Render failed due to WebGL not supported" ∷ [])
  render (some (t, s)) canvas_width canvas_height frame = (
    some (
      t,
      calls gl (draw_triangle_strip 4 ∷ []) (
          upload t frame (
            calls gl (viewport canvas_width canvas_height ∷ clear_color ∷ clear_color_buffer ∷ [])
              s)),
    ),
    [],
  )
