-- ===== src/WebGl/Picture.antt =====
-- What a `render` leaves for the draw call: the planes in the textures that the samplers read.
use Prim.Native.String.{String}
use rtsp_wasm_player.Base.{ℕ, ◌/◌, ◌≡◌, refl, ◌∙◌, some, [], ◌∷◌}
use rtsp_wasm_player.WebGl.Context.{
  WebGl, luminance, viewport, clear_color, clear_color_buffer, draw_triangle_strip, calls,
}
use rtsp_wasm_player.WebGl.Player.{Textures, FrameView, upload, render}
use rtsp_wasm_player.WebGl.Units.{IsReady, unit-fill, bound-fill, sampler-fill}
use rtsp_wasm_player.WebGl.Planes.{Planes}

module _ (gl : WebGl) where
  open gl use {State, unit, bound, image, sampler, unit-call, bound-call, image-call, sampler-call}

  upload-IsReady :
      (t : Textures) (f : FrameView) (s : State) → IsReady gl t s → IsReady gl t (upload gl t f s)
  unfolding upload
  upload-IsReady t f s r = record {
    y_unit = simp (bound-fill gl, unit-fill gl, r.active) r.y_unit;
    u_unit = simp (bound-fill gl, unit-fill gl, r.active) r.u_unit;
    v_unit = simp (bound-fill gl, unit-fill gl, r.active);
    y_sampler = simp (sampler-fill gl) r.y_sampler;
    u_sampler = simp (sampler-fill gl) r.u_sampler;
    v_sampler = simp (sampler-fill gl) r.v_sampler;
    active = simp (unit-fill gl) r.active;
    y_ne_u = r.y_ne_u;
    y_ne_v = r.y_ne_v;
    u_ne_v = r.u_ne_v;
  }

  -- The planes as textures, in the state `s`.
  pub record Shows (t : Textures) (p : Planes) (s : State) : Type 0 where
    pub y_image :
        image s t.y
        ≡ some (record { format = luminance; width = p.width; height = p.height; pixels = p.luma })
    pub u_image :
        image s t.u
        ≡ some (record {
          format = luminance;
          width = p.width / 2;
          height = p.height / 2;
          pixels = p.cb;
        })
    pub v_image :
        image s t.v
        ≡ some (record {
          format = luminance;
          width = p.width / 2;
          height = p.height / 2;
          pixels = p.cr;
        })

  -- Calls that touch no texture and no unit.
  abbrev Same : State → State → Type 0
  Same s s' =
      (unit s' ≡ unit s)
      × ((u : ℕ) → bound s' u ≡ bound s u)
      × ((x : ℕ) → image s' x ≡ image s x)
      × ((x : String) → sampler s' x ≡ sampler s x)

  clear-Same :
      (w h : ℕ) (s : State)
      → Same s (calls gl (viewport w h ∷ clear_color ∷ clear_color_buffer ∷ []) s)
  clear-Same w h s =
      (simp unit-call, λ u. simp bound-call, λ x. simp image-call, λ x. simp sampler-call)

  draw-Same : (s : State) → Same s (calls gl (draw_triangle_strip 4 ∷ []) s)
  draw-Same s = (simp unit-call, λ u. simp bound-call, λ x. simp image-call, λ x. simp sampler-call)

  Same-IsReady : (t : Textures) (s s' : State) → Same s s' → IsReady gl t s → IsReady gl t s'
  Same-IsReady t s s' e r = record {
    y_unit = e.1 0 ∙ r.y_unit;
    u_unit = e.1 1 ∙ r.u_unit;
    v_unit = e.1 2 ∙ r.v_unit;
    y_sampler = e.3 _ ∙ r.y_sampler;
    u_sampler = e.3 _ ∙ r.u_sampler;
    v_sampler = e.3 _ ∙ r.v_sampler;
    active = e.0 ∙ r.active;
    y_ne_u = r.y_ne_u;
    y_ne_v = r.y_ne_v;
    u_ne_v = r.u_ne_v;
  }

  -- Rendering keeps textures that are on their units there, whatever the frame is.
  pub render-IsReady :
      (t : Textures) (s : State) (w h : ℕ) (f : FrameView)
      → IsReady gl t s
      → (s' : State) × (render gl (some (t, s)) w h f ≡ (some (t, s'), [])) × IsReady gl t s'
  unfolding render
  render-IsReady t s w h f r = (
    _,
    refl,
    Same-IsReady t _ _ (draw-Same _)
        (upload-IsReady t f _ (Same-IsReady t s _ (clear-Same w h s) r)),
  )
