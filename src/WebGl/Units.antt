-- ===== src/WebGl/Units.antt =====
-- Texture units: which texture each unit holds, and which unit each sampler reads.
use Prim.Native.String.{String}
use text.Mathlib.Text.{◌==◌ as str_eq}
use rtsp_wasm_player.Base.{
  ℕ, ◌≡◌, ◌≢◌, ap, true, ◌||◌, Option, some, List, ◌==◌, ==_self, if◌then◌else◌, arith,
}
use rtsp_wasm_player.WebGl.Context.{WebGl, Format}
use rtsp_wasm_player.WebGl.Texture.{texture, bind, fill, or_luminance}
use rtsp_wasm_player.WebGl.Player.{Textures, make_textures, init}

module _ (gl : WebGl) where
  open gl use {
    State, unit, bound, image, sampler, known, new_texture, unit-call, bound-call, image-call,
    sampler-call, known-call, new_unknown,
  }

  -- What `Texture.bind` changes.
  unit-bind : (t n : ℕ) (name : String) (s : State) → unit (bind gl t n name s) ≡ n
  unfolding bind
  unit-bind t n name s = simp unit-call

  bound-bind :
      (t n : ℕ) (name : String) (s : State) (u : ℕ)
      → bound (bind gl t n name s) u ≡ (if u == n then t else bound s u)
  unfolding bind
  bound-bind t n name s u = simp (bound-call, unit-call)

  sampler-bind :
      (t n : ℕ) (name : String) (s : State) (x : String)
      → sampler (bind gl t n name s) x ≡ (if str_eq x name then n else sampler s x)
  unfolding bind
  sampler-bind t n name s x = simp sampler-call

  -- What `Texture.fill` changes.
  pub unit-fill :
      (t w h : ℕ) (px : List ℕ) (f : Option Format) (s : State)
      → unit (fill gl t w h px f s) ≡ unit s
  unfolding fill
  unit-fill t w h px f s = simp unit-call

  pub bound-fill :
      (t w h : ℕ) (px : List ℕ) (f : Option Format) (s : State) (u : ℕ)
      → bound (fill gl t w h px f s) u ≡ (if u == unit s then t else bound s u)
  unfolding fill
  bound-fill t w h px f s u = simp bound-call

  pub image-fill :
      (t w h : ℕ) (px : List ℕ) (f : Option Format) (s : State) (x : ℕ)
      → image (fill gl t w h px f s) x ≡ (
          if x == t
          then some (record { format = or_luminance f; width = w; height = h; pixels = px })
          else image s x)
  unfolding fill
  image-fill t w h px f s x = simp (image-call, unit-call, bound-call, ==_self)

  pub sampler-fill :
      (t w h : ℕ) (px : List ℕ) (f : Option Format) (s : State) (x : String)
      → sampler (fill gl t w h px f s) x ≡ sampler s x
  unfolding fill
  sampler-fill t w h px f s x = simp sampler-call

  -- A new texture gets a name that is not in use, which then is in use.
  known-texture : (s : State) (t : ℕ) → known (texture gl s).1 t ≡ (t == new_texture s || known s t)
  unfolding texture
  known-texture s t = simp known-call

  -- The state in which a frame can be drawn: three textures, each on its own unit, which its
  -- sampler reads; the last unit is the active one.
  pub record IsReady (t : Textures) (s : State) : Type 0 where
    pub y_unit : bound s 0 ≡ t.y
    pub u_unit : bound s 1 ≡ t.u
    pub v_unit : bound s 2 ≡ t.v
    pub y_sampler : sampler s "yTex" ≡ 0
    pub u_sampler : sampler s "uTex" ≡ 1
    pub v_sampler : sampler s "vTex" ≡ 2
    pub active : unit s ≡ 2
    pub y_ne_u : t.y ≢ t.u
    pub y_ne_v : t.y ≢ t.v
    pub u_ne_v : t.u ≢ t.v

  new-ne : (s : State) (t : ℕ) → known s t ≡ true → t ≢ new_texture s
  new-ne s t h e = cc (new_unknown s, ap (known s) e)

  known_self : (s : State) → known (texture gl s).1 (new_texture s) ≡ true
  known_self s = rw (known-texture, ==_self)

  known_still : (s : State) (t : ℕ) → known s t ≡ true → known (texture gl s).1 t ≡ true
  known_still s t h = ground (arith, known-texture s t)

  pub make_textures-IsReady : (s : State) → IsReady (make_textures gl s).0 (make_textures gl s).1
  unfolding make_textures texture
  make_textures-IsReady s = record {
    y_unit = simp bound-bind;
    u_unit = simp bound-bind;
    v_unit = simp bound-bind;
    y_sampler = simp sampler-bind;
    u_sampler = simp sampler-bind;
    v_sampler = simp sampler-bind;
    active = simp unit-bind;
    y_ne_u = new-ne s₁ _ (known_self s);
    y_ne_v = new-ne s₂ _ (known_still s₁ _ (known_self s));
    u_ne_v = new-ne s₂ _ (known_self s₁);
  }
    where
      s₁ : State
      s₁ = (texture gl s).1

      s₂ : State
      s₂ = (texture gl s₁).1

  -- After `#init`, whatever the shader compilers say, three different textures are bound to the
  -- units 0, 1 and 2, and the samplers yTex, uTex and vTex read those units.
  pub init-IsReady : (s : State) → IsReady (init gl s).0 (init gl s).1
  unfolding init
  init-IsReady s = make_textures-IsReady _
