-- ===== src/WebGl/Context.antt =====
-- The browser's WebGL context as ws-wasm-player/lib/webgl.js uses it. It is no code of the
-- repository, so it is a record: the calls, what can be observed of its state, and for each
-- observation the documented effect of a call.
use Prim.Native.String.{String}
use text.Mathlib.Text.{◌==◌ as str_eq}
use rtsp_wasm_player.Base.{ℕ, ◌≡◌, Bool, false, ◌||◌, Option, some, List, [], ◌∷◌}
use rtsp_wasm_player.Base.{◌==◌, if◌then◌else◌}

pub data Shader : Type 0 where
  vertex fragment : Shader

pub data Format : Type 0 where
  luminance rgb rgba : Format

-- The four `texParameteri` settings of the source.
pub data Setting : Type 0 where
  mag_filter_linear min_filter_linear wrap_s_clamp wrap_t_clamp : Setting

pub record Image : Type 0 where
  pub format : Format
  pub width : ℕ
  pub height : ℕ
  pub pixels : List ℕ

pub data GlCall : Type 0 where
  create_texture : GlCall
  active_texture : ℕ → GlCall
  bind_texture : ℕ → GlCall
  tex_parameter : Setting → GlCall
  tex_image : Image → GlCall
  uniform_1i : String → ℕ → GlCall
  pixel_store_unpack_alignment : ℕ → GlCall
  create_program : GlCall
  create_shader : Shader → GlCall
  shader_source : Shader → List String → GlCall
  compile_shader : Shader → GlCall
  attach_shader : Shader → GlCall
  link_program : GlCall
  use_program : GlCall
  create_buffer : GlCall
  bind_buffer : GlCall
  buffer_data : ℕ → GlCall
  enable_vertex_attrib : String → GlCall
  vertex_attrib_pointer : String → ℕ → ℕ → ℕ → GlCall
  viewport : ℕ → ℕ → GlCall
  clear_color : GlCall
  clear_color_buffer : GlCall
  draw_triangle_strip : ℕ → GlCall

abbrev pub unit_after : GlCall → ℕ → ℕ
unit_after (active_texture n) unit = n
unit_after _ unit = unit

abbrev pub bound_after : GlCall → ℕ → (ℕ → ℕ) → ℕ → ℕ
bound_after (bind_texture t) unit bound u = if u == unit then t else bound u
bound_after _ unit bound u = bound u

abbrev pub image_after : GlCall → ℕ → (ℕ → Option Image) → ℕ → Option Image
image_after (tex_image i) target image t = if t == target then some i else image t
image_after _ target image t = image t

abbrev pub sampler_after : GlCall → (String → ℕ) → String → ℕ
sampler_after (uniform_1i name n) sampler x = if str_eq x name then n else sampler x
sampler_after _ sampler x = sampler x

abbrev pub known_after : GlCall → ℕ → (ℕ → Bool) → ℕ → Bool
known_after create_texture new known t = t == new || known t
known_after _ new known t = known t

-- `new_texture` is the name that the next `createTexture` returns; it is not in use yet.
pub record WebGl : Type 1 where
  pub State : Type 0
  pub call : GlCall → State → State
  pub unit : State → ℕ
  pub bound : State → ℕ → ℕ
  pub image : State → ℕ → Option Image
  pub sampler : State → String → ℕ
  pub known : State → ℕ → Bool
  pub new_texture : State → ℕ
  pub shader_info_log : Shader → State → Option String
  pub link_status : State → Bool
  pub unit-call : (c : GlCall) (s : State) → unit (call c s) ≡ unit_after c (unit s)
  pub bound-call :
      (c : GlCall) (s : State) (u : ℕ) → bound (call c s) u ≡ bound_after c (unit s) (bound s) u
  pub image-call :
      (c : GlCall) (s : State) (t : ℕ)
      → image (call c s) t ≡ image_after c (bound s (unit s)) (image s) t
  pub sampler-call :
      (c : GlCall) (s : State) (x : String) → sampler (call c s) x ≡ sampler_after c (sampler s) x
  pub known-call :
      (c : GlCall) (s : State) (t : ℕ)
      → known (call c s) t ≡ known_after c (new_texture s) (known s) t
  pub new_unknown : (s : State) → known s (new_texture s) ≡ false

-- Calls made one after the other.
module _ (gl : WebGl) where
  abbrev pub calls : List GlCall → gl.State → gl.State
  calls [] s = s
  calls (c ∷ cs) s = calls cs (gl.call c s)
