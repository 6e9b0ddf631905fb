-- ===== src/Bytes/Text.antt =====
-- The text functions of common/util/bytes.h: a text of bytes, padded to a width, and trimmed.
use rtsp_wasm_player.Base.{
  ℕ, zero, suc, ◌-◌, ◌≤◌, ◌≡◌, refl, sym, ap, ◌∙◌, Bool, true, Option, none, some, List, [], ◌∷◌,
  ◌++◌, arith, ltb, ◌==◌, if◌then◌else◌, ==_self, length, take, length-append, take_all,
}

unfoldable pub replicate : ℕ → ℕ → List ℕ
replicate zero c = []
replicate (suc n) c = c ∷ replicate n c

-- `to(bytes, value, size, pad)`: what is written, from the first byte on.
unfoldable pub to_text : List ℕ → ℕ → ℕ → List ℕ
unfolding replicate
to_text value size pad =
    if ltb (length value) size then value ++ replicate (size - length value) pad else value

-- `s.erase(s.find_last_not_of(set) + 1)` with the set of one character, from the last character
-- on.
abbrev pub keep : ℕ → ℕ → List ℕ → List ℕ
keep c t [] = if c == t then [] else c ∷ []
keep c t (d ∷ s) = c ∷ d ∷ s

unfoldable pub rtrim : ℕ → List ℕ → List ℕ
rtrim t [] = []
rtrim t (c ∷ s) = keep c t (rtrim t s)

-- `from(bytes, size, trim, trim_set)`; `none` is a read behind the end.
unfoldable pub from_text : List ℕ → ℕ → Bool → ℕ → Option (List ℕ)
from_text bytes size trim t =
    if ltb (length bytes) size
    then none
    else some (if trim then rtrim t (take size bytes) else take size bytes)

rtrim-replicate : (t n : ℕ) → rtrim t (replicate n t) ≡ []
unfolding rtrim replicate
rtrim-replicate t zero = refl
rtrim-replicate t (suc n) = rw (rtrim-replicate t n) (rw (==_self t))

rtrim-append_replicate : (t n : ℕ) (s : List ℕ) → rtrim t (s ++ replicate n t) ≡ rtrim t s
unfolding rtrim
rtrim-append_replicate t n [] = rtrim-replicate t n
rtrim-append_replicate t n (c ∷ s) = ap (keep c t) (rtrim-append_replicate t n s)

pub length-replicate : (n c : ℕ) → length (replicate n c) ≡ n
unfolding replicate
length-replicate zero c = refl
length-replicate (suc n) c = ap suc (length-replicate n c)

length-to_text : (s : List ℕ) (size pad : ℕ) → length s ≤ size → length (to_text s size pad) ≡ size
unfolding to_text
length-to_text s size pad h = ground (
  arith,
  length-append s (replicate (size - length s) pad),
  length-replicate (size - length s) pad,
)

rtrim-to_text : (s : List ℕ) (size pad : ℕ) → rtrim pad (to_text s size pad) ≡ rtrim pad s
unfolding to_text
rtrim-to_text s size pad = ground (arith, rtrim-append_replicate pad (size - length s) s)

-- A text that fits and does not end in the padding comes back from its padded field.
pub from_text-to_text :
    (s rest : List ℕ) (size pad : ℕ)
    → length s ≤ size
    → rtrim pad s ≡ s
    → from_text (to_text s size pad ++ rest) size true pad ≡ some s
unfolding from_text
from_text-to_text s rest size pad h e = ground (arith, whole, field, trimmed)
  where
    field : take size (to_text s size pad ++ rest) ≡ to_text s size pad
    field =
        ap (λ (n : ℕ). take n (to_text s size pad ++ rest)) (sym (length-to_text s size pad h))
        ∙ take_all (to_text s size pad) rest

    trimmed : rtrim pad (to_text s size pad) ≡ s
    trimmed = rtrim-to_text s size pad ∙ e

    whole : size ≤ length (to_text s size pad ++ rest)
    whole = omega (arith, length-append (to_text s size pad) rest, length-to_text s size pad h)
