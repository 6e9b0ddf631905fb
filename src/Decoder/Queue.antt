-- ===== src/Decoder/Queue.antt =====
-- The queue between `DecodeAsync` and the decoding thread of ws-wasm-player/src/decoder.h, without
-- the null pointer that stops the thread.
use rtsp_wasm_player.Base.{
  ℕ, suc, ◌+◌, ◌≤◌, ◌≡◌, refl, ap, ◌⊎◌, inl, inr, Option, none, some, List, [], ◌∷◌, ◌++◌, map,
  arith, ltb, if◌then◌else◌, Bool-cases, length, length-append,
}
use rtsp_wasm_player.Packet.{Data}
use rtsp_wasm_player.Decoder.Defs.{is_key}

-- The `for` loop that erases the eldest packet that is no key frame. `none` is the use of a null
-- pointer.
abbrev pub keep_first : Option Data → Option (List (Option Data)) → Option (List (Option Data))
keep_first x none = none
keep_first x (some q) = some (x ∷ q)

unfoldable pub erase_eldest : List (Option Data) → Option (List (Option Data))
erase_eldest [] = some []
erase_eldest (none ∷ q) = none
erase_eldest (some x ∷ q) = if is_key x.packet then keep_first (some x) (erase_eldest q) else some q

-- `push_back` and the check of the size.
unfoldable pub push : ℕ → Data → List (Option Data) → Option (List (Option Data))
push maxsize x q =
    let q' : List (Option Data) = q ++ (some x ∷ []) in
    if ltb maxsize (length q') then erase_eldest q' else some q'

-- The same on lists of packets.
unfoldable pub erase_other : List Data → List Data
erase_other [] = []
erase_other (x ∷ q) = if is_key x.packet then x ∷ erase_other q else q

unfoldable pub keys : List Data → List Data
keys [] = []
keys (x ∷ q) = if is_key x.packet then x ∷ keys q else keys q

abbrev pub waiting : List Data → List (Option Data)
waiting = map some

length-waiting : (q : List Data) → length (waiting q) ≡ length q
length-waiting [] = refl
length-waiting (x ∷ q) = ap suc (length-waiting q)

erase_eldest-eq : (q : List Data) → erase_eldest (waiting q) ≡ some (waiting (erase_other q))
unfolding erase_eldest erase_other
erase_eldest-eq [] = refl
erase_eldest-eq (x ∷ q) = ground (arith, erase_eldest-eq q)

pub keys-append : (p q : List Data) → keys (p ++ q) ≡ keys p ++ keys q
unfolding keys
keys-append [] q = refl
keys-append (x ∷ p) q = ground (arith, keys-append p q)

keys-erase_other : (q : List Data) → keys (erase_other q) ≡ keys q
unfolding keys erase_other
keys-erase_other [] = refl
keys-erase_other (x ∷ q) = elim (Bool-cases (is_key x.packet)) [
  | inl e ↦ rw (e, e) (ap (λ (l : List Data). x ∷ l) (keys-erase_other q))
  | inr e ↦ rw e
]

-- Every packet that waits is a key frame.
abbrev pub AllKeys : List Data → Type 0
AllKeys q = keys q ≡ q

length-keys : (q : List Data) → length (keys q) ≤ length q
unfolding keys
length-keys [] = omega arith
length-keys (x ∷ q) = ground (arith, length-keys q)

-- Erasing takes one packet away, unless all are key frames.
length-erase_other :
    (q : List Data) → (length (erase_other q) + 1 ≡ length q) ⊎ (AllKeys q × (erase_other q ≡ q))
unfolding keys erase_other
length-erase_other [] = inr (refl, refl)
length-erase_other (x ∷ q) = elim (Bool-cases (is_key x.packet)) [
  | inl e ↦ rw e (one_less (length-erase_other q))
  | inr e ↦ rw e (inl (omega arith))
]
  where
    one_less :
        (length (erase_other q) + 1 ≡ length q) ⊎ (AllKeys q × (erase_other q ≡ q))
        → (suc (length (erase_other q)) + 1 ≡ suc (length q))
          ⊎ ((x ∷ keys q ≡ x ∷ q) × (x ∷ erase_other q ≡ x ∷ q))
    one_less (inl h) = inl (omega arith)
    one_less (inr (k, r)) = inr (ap (λ (l : List Data). x ∷ l) k, ap (λ (l : List Data). x ∷ l) r)

-- A list with as many key frames as packets has key frames only.
keys_full : (q : List Data) → length q ≤ length (keys q) → AllKeys q
unfolding keys
keys_full [] h = refl
keys_full (x ∷ q) h = elim (Bool-cases (is_key x.packet)) [
  | inl e ↦ rw e (ap (λ (l : List Data). x ∷ l) (keys_full q (ground arith)))
  | inr e ↦ absurd (ground (arith, length-keys q))
]

-- The queue holds its limit, or it holds key frames only.
abbrev pub InBound : ℕ → List Data → Type 0
InBound maxsize q = (length q ≤ maxsize) ⊎ AllKeys q

unfoldable pub after_push : ℕ → Data → List Data → List Data
unfolding erase_other
after_push maxsize x q =
    if ltb maxsize (length (q ++ (x ∷ []))) then erase_other (q ++ (x ∷ [])) else q ++ (x ∷ [])

-- On packets the push never meets a null pointer.
pub push-eq :
    (maxsize : ℕ) (x : Data) (q : List Data)
    → push maxsize x (waiting q) ≡ some (waiting (after_push maxsize x q))
unfolding push after_push
push-eq maxsize x q =
    rw (snoc q, length-waiting (q ++ (x ∷ [])))
      (elim (Bool-cases (ltb maxsize (length (q ++ (x ∷ []))))) [
        | inl e ↦ rw e (erase_eldest-eq (q ++ (x ∷ [])))
        | inr e ↦ rw e
      ])
  where
    snoc : (l : List Data) → waiting l ++ (some x ∷ []) ≡ waiting (l ++ (x ∷ []))
    snoc [] = refl
    snoc (y ∷ l) = ap (λ (t : List (Option Data)). some y ∷ t) (snoc l)

pub push-InBound :
    (maxsize : ℕ) (x : Data) (q : List Data)
    → InBound maxsize q
    → InBound maxsize (after_push maxsize x q)
unfolding after_push
push-InBound maxsize x q h = elim (Bool-cases (ltb maxsize (length (q ++ (x ∷ []))))) [
  | inl e ↦ rw e (erased h (length-erase_other (q ++ (x ∷ []))))
  | inr e ↦ rw e (inl (ground arith))
]
  where
    full :
        length q + length (keys (x ∷ [])) ≤ length (keys q) + length (keys (x ∷ []))
        → length q + length (keys (x ∷ [])) ≤ length (keys (erase_other (q ++ (x ∷ []))))
    full le = omega (
      arith,
      ap (length {A = Data}) (keys-erase_other (q ++ (x ∷ []))),
      ap (length {A = Data}) (keys-append q (x ∷ [])),
      length-append (keys q) (keys (x ∷ [])),
    )

    erased :
        InBound maxsize q
        → (length (erase_other (q ++ (x ∷ []))) + 1 ≡ length (q ++ (x ∷ [])))
          ⊎ (AllKeys (q ++ (x ∷ [])) × (erase_other (q ++ (x ∷ [])) ≡ q ++ (x ∷ [])))
        → InBound maxsize (erase_other (q ++ (x ∷ [])))
    erased (inl p) (inl h) = inl (omega (arith, length-append q (x ∷ [])))
    erased (inr k) (inl h) = inr (
        keys_full _
          (omega (arith, full (omega (arith, ap (length {A = Data}) k)), length-append q (x ∷ []))))
    erased _ (inr (k, r)) = inr (rw r k)

pub keys-after_push :
    (maxsize : ℕ) (x : Data) (q : List Data)
    → keys (after_push maxsize x q) ≡ keys q ++ keys (x ∷ [])
unfolding after_push
keys-after_push maxsize x q =
    ground (arith, keys-erase_other (q ++ (x ∷ [])), keys-append q (x ∷ []))
