-- ===== src/Bytes/Words.antt =====
-- Round trips of 32-bit and 64-bit integers.
use rtsp_wasm_player.Base.{
  ℕ, zero, suc, ◌+◌, ◌*◌, ◌/◌, ◌%◌, ◌^◌, ◌<◌, bit_and, ◌≡◌, refl, ap, ◌∙◌, ◌⊎◌, inl, inr, some,
  List, ◌++◌, arith, length,
}
use rtsp_wasm_player.Base.Bits.{zero-or, or-zero, or-disjoint, and_byte}
use rtsp_wasm_player.Bytes.{to_loop, to, widen, join_byte, from_loop, from, read_loop, wire}

pub length-to : (k v : ℕ) → length (to k v) ≡ k
unfolding to
length-to zero v = refl
length-to (suc k) v = ap suc (length-to k v)

from_loop-to_loop :
    (size k value v : ℕ) (rest : List ℕ)
    → from_loop size k value (to_loop k v ++ rest) ≡ some (read_loop size k value (to_loop k v))
unfolding from_loop to_loop read_loop
from_loop-to_loop size zero value v rest = refl
from_loop-to_loop size (suc k) value v rest = from_loop-to_loop size k _ v rest

-- Bytes that `to` wrote are read, whatever follows them.
pub from-to : (size v : ℕ) (rest : List ℕ) → from size (to size v ++ rest) ≡ some (wire size v)
unfolding from to wire
from-to size v rest = from_loop-to_loop size size 0 v rest

widen_four : (v : ℕ) → widen 4 v ≡ v
unfolding widen
widen_four v = refl

pub widen_small : (size v : ℕ) → v < 2 ^ 31 → widen size v ≡ v
unfolding widen
widen_small size v h = ground arith

-- A type of 4 bytes, or a byte that leaves the sign bit alone.
abbrev Fits : ℕ → ℕ → Type 0
Fits size b = (size ≡ 4) ⊎ (b < 128)

widen-Fits : (size b : ℕ) → b < 256 → Fits size b → widen size (b * 2 ^ 24) ≡ b * 2 ^ 24
widen-Fits size b h (inl e) = rw e (widen_four (b * 2 ^ 24))
widen-Fits size b h (inr p) = widen_small size (b * 2 ^ 24) (omega arith)

join_3 : (size b : ℕ) → b < 256 → Fits size b → join_byte size 3 0 b ≡ b * 2 ^ 24
unfolding join_byte
join_3 size b h f =
    zero-or (widen size (b * 2 ^ 24 % 2 ^ 32))
    ∙ ap (widen size) (let e : b * 2 ^ 24 % 2 ^ 32 ≡ b * 2 ^ 24 = omega arith in e)
    ∙ widen-Fits size b h f

join_2 : (size q b : ℕ) → b < 256 → join_byte size 2 (q * 2 ^ 24) b ≡ (q * 256 + b) * 2 ^ 16
unfolding join_byte
join_2 size q b h = rw (let e : b * 2 ^ 16 % 2 ^ 32 ≡ b * 2 ^ 16 = omega arith in e) (
    rw (widen_small size (b * 2 ^ 16) (omega arith))
      (or-disjoint 24 q (b * 2 ^ 16) (omega arith) ∙ omega arith))

join_1 : (size q b : ℕ) → b < 256 → join_byte size 1 (q * 2 ^ 16) b ≡ (q * 256 + b) * 2 ^ 8
unfolding join_byte
join_1 size q b h = rw (let e : b * 2 ^ 8 % 2 ^ 32 ≡ b * 2 ^ 8 = omega arith in e) (
    rw (widen_small size (b * 2 ^ 8) (omega arith))
      (or-disjoint 16 q (b * 2 ^ 8) (omega arith) ∙ omega arith))

join_0 : (size q b : ℕ) → b < 256 → join_byte size 0 (q * 2 ^ 8) b ≡ q * 256 + b
unfolding join_byte
join_0 size q b h =
    rw (let e : b * 2 ^ 0 % 2 ^ 32 ≡ b = omega arith in e)
      (rw (widen_small size b (omega arith)) (or-disjoint 8 q b h ∙ omega arith))

join_four :
    (size a b c d : ℕ)
    → a < 256
    → b < 256
    → c < 256
    → d < 256
    → Fits size a
    → join_byte size 0 (join_byte size 1 (join_byte size 2 (join_byte size 3 0 a) b) c) d
      ≡ ((a * 256 + b) * 256 + c) * 256 + d
join_four size a b c d ha hb hc hd f = rw (join_3 size a ha f) (
    rw (join_2 size a b hb)
      (rw (join_1 size (a * 256 + b) c hc) (join_0 size ((a * 256 + b) * 256 + c) d hd)))

-- What `to` writes at one place.
written : (x : ℕ) → bit_and x 255 % 256 ≡ x % 256
written x = omega (arith, and_byte x)

written-lt : (x : ℕ) → bit_and x 255 % 256 < 256
written-lt x = omega arith

-- Four bytes as they stand in `wire`.
join_written :
    (size v : ℕ)
    → v < 2 ^ 32
    → (size ≡ 4) ⊎ (v < 2 ^ 31)
    → join_byte size 0
        (join_byte size 1
          (join_byte size 2
            (join_byte size 3 0 (bit_and (v / 2 ^ 24) 255 % 256))
            (bit_and (v / 2 ^ 16) 255 % 256))
          (bit_and (v / 2 ^ 8) 255 % 256))
        (bit_and (v / 1) 255 % 256)
      ≡ v
join_written size v h f =
    join_four size (bit_and (v / 2 ^ 24) 255 % 256) (bit_and (v / 2 ^ 16) 255 % 256)
      (bit_and (v / 2 ^ 8) 255 % 256) (bit_and (v / 1) 255 % 256) (written-lt _) (written-lt _)
      (written-lt _) (written-lt _) (fits f)
    ∙ omega
        (arith, written (v / 2 ^ 24), written (v / 2 ^ 16), written (v / 2 ^ 8), written (v / 1))
  where
    fits : (size ≡ 4) ⊎ (v < 2 ^ 31) → Fits size (bit_and (v / 2 ^ 24) 255 % 256)
    fits (inl e) = inl e
    fits (inr p) = inr (omega (arith, written (v / 2 ^ 24)))

-- A 32-bit integer comes back.
pub wire_32 : (v : ℕ) → v < 2 ^ 32 → wire 4 v ≡ v
unfolding wire
wire_32 v h = join_written 4 v h (inl refl)

no_byte : (x : ℕ) → x % 256 ≡ 0 → bit_and x 255 % 256 ≡ 0
no_byte x e = omega (arith, and_byte x)

-- A 64-bit integer comes back if it is below 2 ^ 31.
pub wire_64_small : (v : ℕ) → v < 2 ^ 31 → wire 8 v ≡ v
unfolding wire join_byte
wire_64_small v h =
    rw
      (
        no_byte (v / 2 ^ 56) (omega arith),
        no_byte (v / 2 ^ 48) (omega arith),
        no_byte (v / 2 ^ 40) (omega arith),
        no_byte (v / 2 ^ 32) (omega arith),
      )
      (join_written 8 v (omega arith) (inr h))

-- A round with the byte 0 changes nothing.
join_zero : (k v : ℕ) → join_byte 8 k v 0 ≡ v
unfolding join_byte
join_zero k v = rw (let e : 0 * 2 ^ (8 * k % 32) % 2 ^ 32 ≡ 0 = omega arith in e) (or-zero v)

-- The shift count of the four highest bytes is taken modulo 32.
join_wraps :
    (b : ℕ)
    → (v : ℕ)
    → (join_byte 8 7 v b ≡ join_byte 8 3 v b)
      × (join_byte 8 6 v b ≡ join_byte 8 2 v b)
      × (join_byte 8 5 v b ≡ join_byte 8 1 v b)
      × (join_byte 8 4 v b ≡ join_byte 8 0 v b)
unfolding join_byte
join_wraps b v = (refl, refl, refl, refl)

-- The high word of a 64-bit integer comes back in the place of the low one.
pub wire_64_high : (hi : ℕ) → hi < 2 ^ 31 → wire 8 (hi * 2 ^ 32) ≡ hi
unfolding wire
wire_64_high hi h =
    rw
      (
        no_byte (hi * 2 ^ 32 / 2 ^ 24) (omega arith),
        no_byte (hi * 2 ^ 32 / 2 ^ 16) (omega arith),
        no_byte (hi * 2 ^ 32 / 2 ^ 8) (omega arith),
        no_byte (hi * 2 ^ 32 / 1) (omega arith),
        (let e : hi * 2 ^ 32 / 2 ^ 56 ≡ hi / 2 ^ 24 = omega arith in e),
        (let e : hi * 2 ^ 32 / 2 ^ 48 ≡ hi / 2 ^ 16 = omega arith in e),
        (let e : hi * 2 ^ 32 / 2 ^ 40 ≡ hi / 2 ^ 8 = omega arith in e),
        (let e : hi * 2 ^ 32 / 2 ^ 32 ≡ hi / 1 = omega arith in e),
      )
      (simp
        (
          join_zero,
          (λ (b : ℕ) (v : ℕ). (join_wraps b v).0),
          (λ (b : ℕ) (v : ℕ). (join_wraps b v).1),
          (λ (b : ℕ) (v : ℕ). (join_wraps b v).2),
          (λ (b : ℕ) (v : ℕ). (join_wraps b v).3),
        )
        (join_written 8 hi (omega arith) (inr h)))

-- A 32-bit integer that `to` wrote is read back, whatever follows it.
pub from-to_32 : (v : ℕ) (rest : List ℕ) → v < 2 ^ 32 → from 4 (to 4 v ++ rest) ≡ some v
from-to_32 v rest h = from-to 4 v rest ∙ ap some (wire_32 v h)

-- A 64-bit integer that `to` wrote is read back, whatever follows it, if it is below 2 ^ 31.
pub from-to_64_small : (v : ℕ) (rest : List ℕ) → v < 2 ^ 31 → from 8 (to 8 v ++ rest) ≡ some v
from-to_64_small v rest h = from-to 8 v rest ∙ ap some (wire_64_small v h)

-- Of a 64-bit integer whose low word is 0 and whose high word is below 2 ^ 31, the high word is
-- read in the place of the low one.
pub from-to_64_high :
    (hi : ℕ) (rest : List ℕ) → hi < 2 ^ 31 → from 8 (to 8 (hi * 2 ^ 32) ++ rest) ≡ some hi
from-to_64_high hi rest h = from-to 8 (hi * 2 ^ 32) rest ∙ ap some (wire_64_high hi h)
