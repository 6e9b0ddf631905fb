-- ===== src/WebGl/Software.antt =====
-- A concrete WebGL context, which the examples run the player on, and a small picture.
use Prim.Native.String.{String}
use rtsp_wasm_player.Base.{ℕ, ◌+◌, ◌≡◌, refl, true, false, Option, none, [], ◌∷◌, arith, ltb}
use rtsp_wasm_player.WebGl.Context.{
  WebGl, Image, GlCall, create_texture, unit_after, bound_after, image_after, sampler_after,
  known_after,
}
use rtsp_wasm_player.WebGl.Planes.{Planes, IsYuv420}

pub record Context : Type 0 where
  pub unit : ℕ
  pub bound : ℕ → ℕ
  pub image : ℕ → Option Image
  pub sampler : String → ℕ
  pub next : ℕ

pub next_after : GlCall → ℕ → ℕ
next_after create_texture n = n + 1
next_after _ n = n

abbrev pub step : GlCall → Context → Context
step c s = record {
  unit = unit_after c s.unit;
  bound = λ u. bound_after c s.unit s.bound u;
  image = λ t. image_after c (s.bound s.unit) s.image t;
  sampler = λ x. sampler_after c s.sampler x;
  next = next_after c s.next;
}

pub step_known : (c : GlCall) (n t : ℕ) → ltb t (next_after c n) ≡ known_after c n (λ k. ltb k n) t
unfolding next_after
step_known create_texture n t = ground arith
step_known _ n t = refl

pub not_next : (n : ℕ) → ltb n n ≡ false
not_next n = ground arith

abbrev pub software : WebGl
software = record {
  State = Context;
  call = step;
  unit = λ s. s.unit;
  bound = λ s u. s.bound u;
  image = λ s t. s.image t;
  sampler = λ s x. s.sampler x;
  known = λ s t. ltb t s.next;
  new_texture = λ s. s.next;
  shader_info_log = λ k s. none;
  link_status = λ s. true;
  unit-call = λ c s. refl;
  bound-call = λ c s u. refl;
  image-call = λ c s t. refl;
  sampler-call = λ c s x. refl;
  known-call = λ c s t. step_known c s.next t;
  new_unknown = λ s. not_next s.next;
}

abbrev pub blank : Context
blank = record { unit = 0; bound = λ u. 0; image = λ t. none; sampler = λ x. 0; next = 1 }

-- A frame of 2 by 2.
abbrev pub small_frame : Planes
small_frame = record { width = 2; height = 2; luma = 1 ∷ 2 ∷ 3 ∷ 4 ∷ []; cb = 5 ∷ []; cr = 6 ∷ [] }

pub small_frame-IsYuv420 : IsYuv420 small_frame
small_frame-IsYuv420 = omega arith
