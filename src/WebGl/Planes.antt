-- ===== src/WebGl/Planes.antt =====
-- How `render` cuts the bytes of a frame into planes.
use mathlib.Core.Path.{ap₂, subst}
use native.Mathlib.Nat.{mul-le-mul}
use rtsp_wasm_player.Base.{
  ℕ, ◌+◌, ◌-◌, ◌*◌, ◌/◌, ◌^◌, ◌≤◌, ◌<◌, ◌≡◌, refl, ◌∙◌, List, [], ◌++◌, append-nil, append_assoc,
  arith, length, drop, length-append, length-take, length-drop, take_all, drop_all,
}
use rtsp_wasm_player.WebGl.Player.{FrameView, add_shift, subarray}

-- Below 2^31 the shift is a division.
pub add_shift_small : (x k : ℕ) → x < 2 ^ 31 → add_shift x k ≡ x + x / 2 ^ k
unfolding add_shift
add_shift_small x k h = ground arith

-- A frame in YUV 4:2:0, as FFmpeg lays it out in one buffer: a luma plane and two chroma planes
-- of half the size in each direction, rounded up.
pub record Planes : Type 0 where
  pub width : ℕ
  pub height : ℕ
  pub luma : List ℕ
  pub cb : List ℕ
  pub cr : List ℕ

abbrev pub chroma : ℕ → ℕ → ℕ
chroma width height = (width + 1) / 2 * ((height + 1) / 2)

pub record IsYuv420 (p : Planes) : Type 0 where
  pub luma_size : length p.luma ≡ p.width * p.height
  pub cb_size : length p.cb ≡ chroma p.width p.height
  pub cr_size : length p.cr ≡ chroma p.width p.height
  pub small : p.width * p.height < 2 ^ 31

abbrev pub frame_of : Planes → FrameView
frame_of p = record { width = p.width; height = p.height; bytes = p.luma ++ (p.cb ++ p.cr) }

-- A slice that begins behind one part and is as long as the next one is that part.
slice_part :
    (begin end : ℕ) (xs ys zs : List ℕ)
    → length xs ≡ begin
    → begin + length ys ≡ end
    → subarray begin end (xs ++ (ys ++ zs)) ≡ ys
slice_part begin end xs ys zs p q = rw (span, ← p, drop_all xs (ys ++ zs)) (take_all ys zs)
  where
    span : end - begin ≡ length ys
    span = omega arith

even_product : (a b w h : ℕ) → w ≡ 2 * a → h ≡ 2 * b → w * h ≡ 4 * (a * b)
even_product a b w h e f = rw (e, f) (omega arith)

even-chroma : (a b w h : ℕ) → w ≡ 2 * a → h ≡ 2 * b → chroma w h ≡ a * b
even-chroma a b w h e f =
    ap₂ (λ (x y : ℕ). x * y) (let l : (w + 1) / 2 ≡ a = omega arith in l)
      (let r : (h + 1) / 2 ≡ b = omega arith in r)

-- The three slices of `render` are the three planes when both sides are even.
pub record AreSlices (p : Planes) : Type 0 where
  pub luma_slice : subarray 0 (p.width * p.height) (frame_of p).bytes ≡ p.luma
  pub cb_slice :
      subarray (p.width * p.height) (add_shift (p.width * p.height) 2) (frame_of p).bytes ≡ p.cb
  pub cr_slice :
      subarray
        (add_shift (p.width * p.height) 2)
        (add_shift (p.width * p.height) 1)
        (frame_of p).bytes
      ≡ p.cr

pub even-AreSlices :
    (p : Planes) (a b : ℕ) → IsYuv420 p → p.width ≡ 2 * a → p.height ≡ 2 * b → AreSlices p
even-AreSlices p a b v e f = record {
  luma_slice = slice_part 0 n [] p.luma (p.cb ++ p.cr) refl (omega (arith, v.luma_size));
  cb_slice =
      slice_part n (add_shift n 2) p.luma p.cb p.cr v.luma_size
        (omega (arith, first, quarter, cb_length));
  cr_slice =
      subst (λ bytes. subarray (add_shift n 2) (add_shift n 1) bytes ≡ p.cr) regroup
        (slice_part (add_shift n 2) (add_shift n 1) (p.luma ++ p.cb) p.cr []
          (omega (arith, first, quarter, cb_length, v.luma_size, length-append p.luma p.cb))
          (omega (arith, first, second, quarter, cr_length)));
}
  where
    n : ℕ
    n = p.width * p.height

    quarter : n ≡ 4 * (a * b)
    quarter = even_product a b p.width p.height e f

    cb_length : length p.cb ≡ a * b
    cb_length = v.cb_size ∙ even-chroma a b p.width p.height e f

    cr_length : length p.cr ≡ a * b
    cr_length = v.cr_size ∙ even-chroma a b p.width p.height e f

    first : add_shift n 2 ≡ n + n / 2 ^ 2
    first = add_shift_small n 2 v.small

    second : add_shift n 1 ≡ n + n / 2 ^ 1
    second = add_shift_small n 1 v.small

    regroup : (p.luma ++ p.cb) ++ (p.cr ++ []) ≡ p.luma ++ (p.cb ++ p.cr)
    regroup = simp (append_assoc, append-nil)

half-mul-half : (w h : ℕ) → 4 * (w / 2 * (h / 2)) ≤ w * h
half-mul-half w h =
    let doubled : 2 * (w / 2) * (2 * (h / 2)) ≤ w * h = mul-le-mul (omega arith) (omega arith) in
    omega arith

le-four_chroma : (w h : ℕ) → w * h ≤ 4 * chroma w h
le-four_chroma w h =
    let doubled : w * h ≤ 2 * ((w + 1) / 2) * (2 * ((h + 1) / 2)) =
      mul-le-mul (omega arith) (omega arith) in
    omega arith

length-subarray :
    (begin end : ℕ) (xs : List ℕ)
    → begin ≤ end
    → end ≤ length xs
    → length (subarray begin end xs) ≡ end - begin
length-subarray begin end xs p q =
    omega (arith, length-take (end - begin) (drop begin xs), length-drop begin xs)

-- Whatever the sides are, each slice has at least as many bytes as `texImage2D` reads for its
-- texture.
pub record IsEnough (p : Planes) : Type 0 where
  pub luma_enough : p.width * p.height ≤ length (subarray 0 (p.width * p.height) (frame_of p).bytes)
  pub cb_enough :
      p.width / 2 * (p.height / 2)
      ≤ length (subarray (p.width * p.height) (add_shift (p.width * p.height) 2) (frame_of p).bytes)
  pub cr_enough :
      p.width / 2 * (p.height / 2)
      ≤ length (
          subarray
            (add_shift (p.width * p.height) 2)
            (add_shift (p.width * p.height) 1)
            (frame_of p).bytes)

length-bytes :
    (p : Planes)
    → IsYuv420 p
    → length (frame_of p).bytes ≡ p.width * p.height + 2 * chroma p.width p.height
length-bytes p v = omega (
  arith,
  length-append p.luma (p.cb ++ p.cr),
  length-append p.cb p.cr,
  v.luma_size,
  v.cb_size,
  v.cr_size,
)

-- For planes of a YUV 4:2:0 picture, with sides of any parity, each of the three slices that
-- `render` takes of the frame has at least as many bytes as its texture's size needs.
pub slices-IsEnough : (p : Planes) → IsYuv420 p → IsEnough p
slices-IsEnough p v = record {
  luma_enough = omega (arith, length-subarray 0 n bytes (omega arith) (omega (arith, total)));
  cb_enough = omega (
    arith,
    first,
    half,
    length-subarray n (add_shift n 2) bytes (omega (arith, first))
        (omega (arith, first, total, le-four_chroma p.width p.height)),
  );
  cr_enough = omega (
    arith,
    first,
    second,
    half,
    length-subarray (add_shift n 2) (add_shift n 1) bytes (omega (arith, first, second))
        (omega (arith, second, total, le-four_chroma p.width p.height)),
  );
}
  where
    n : ℕ
    n = p.width * p.height

    bytes : List ℕ
    bytes = (frame_of p).bytes

    total : length bytes ≡ n + 2 * chroma p.width p.height
    total = length-bytes p v

    half : 4 * (p.width / 2 * (p.height / 2)) ≤ n
    half = half-mul-half p.width p.height

    first : add_shift n 2 ≡ n + n / 2 ^ 2
    first = add_shift_small n 2 v.small

    second : add_shift n 1 ≡ n + n / 2 ^ 1
    second = add_shift_small n 1 v.small
