-- ===== src/Packet/Reads.antt =====
-- The parts of `FromBytes` one by one, and the side data loop on the bytes of `ToBytes`.
use mathlib.Core.Path.{ap₂}
use rtsp_wasm_player.Base.{
  ℕ, zero, suc, ◌+◌, ◌%◌, ◌^◌, ◌<◌, ◌≡◌, refl, sym, ap, ◌∙◌, true, some, List, [], ◌∷◌, ◌++◌,
  append_assoc, arith, length, drop, length-append, take_all, drop_all,
}
use rtsp_wasm_player.Bytes.{to, from, copy, widen, join_byte}
use rtsp_wasm_player.Bytes.Words.{length-to, from-to_32, widen_small}
use rtsp_wasm_player.Base.Bits.{zero-or}
use rtsp_wasm_player.Packet.{SideData, Packet}
use rtsp_wasm_player.Packet.Encode.{write_side_data}
use rtsp_wasm_player.Packet.Decode.{
  Av, Reader, Step, next, continue, read_side, read_sides, read_head, read_tail,
}

module _ (av : Av) where
  pub read_head_lem :
      (r : Reader) (a b n : ℕ) (block : List ℕ)
      → from 8 r.rest ≡ some a
      → from 8 (drop 8 r.rest) ≡ some b
      → from 4 (drop 16 r.rest) ≡ some n
      → av.malloc (widen 8 n) ≡ true
      → copy (widen 8 n) (drop 20 r.rest) ≡ some block
      → read_head av r ≡ (
        next tt,
        record {
          rest = drop n (drop 20 r.rest);
          pos = r.pos + 20 + n;
          filled = record r.filled {
            packet = av.packet_from_data block (record r.filled.packet { pts = a; dts = b });
          };
        },
      )
  unfolding read_head
  read_head_lem r a b n block e₁ e₂ e₃ m c = ground arith

  read_side_lem :
      (r : Reader) (kind n : ℕ) (block : List ℕ)
      → from 1 r.rest ≡ some kind
      → from 4 (drop 1 r.rest) ≡ some n
      → av.malloc (widen 8 n) ≡ true
      → copy (widen 8 n) (drop 5 r.rest) ≡ some block
      → read_side av r ≡ (
        next tt,
        record {
          rest = drop (5 + n) r.rest;
          pos = r.pos + (5 + n);
          filled = record r.filled {
            packet =
                av.packet_add_side_data (record { kind = kind; bytes = block }) r.filled.packet;
          };
        },
      )
  unfolding read_side
  read_side_lem r kind n block e₁ e₂ m c = ground arith

  pub read_tail_lem :
      (r : Reader) (d : ℕ)
      → from 8 r.rest ≡ some d
      → read_tail av r ≡ (
        next tt,
        record {
          rest = drop 16 r.rest;
          pos = r.pos + 16;
          filled = record r.filled { packet = record r.filled.packet { duration = d; pos = d } };
        },
      )
  unfolding read_tail
  read_tail_lem r d e = ground arith

pub drop_to : (k v : ℕ) (xs : List ℕ) → drop k (to k v ++ xs) ≡ xs
drop_to k v xs = ap (λ (n : ℕ). drop n (to k v ++ xs)) (sym (length-to k v)) ∙ drop_all (to k v) xs

drop_nil : (n : ℕ) → drop {A = ℕ} n [] ≡ []
drop_nil zero = refl
drop_nil (suc n) = refl

pub drop-add : (m n : ℕ) (xs : List ℕ) → drop (m + n) xs ≡ drop n (drop m xs)
drop-add zero n xs = ap (λ (k : ℕ). drop k xs) (omega arith)
drop-add (suc m) n [] = drop_nil (suc m + n) ∙ sym (drop_nil n)
drop-add (suc m) n (x ∷ xs) =
    ap (λ (k : ℕ). drop k (x ∷ xs)) (let e : suc m + n ≡ suc (m + n) = omega arith in e)
    ∙ drop-add m n xs

pub copy_part :
    (n : ℕ) (xs ys : List ℕ) → length xs ≡ n → n < 2 ^ 31 → copy (widen 8 n) (xs ++ ys) ≡ some xs
unfolding copy
copy_part n xs ys e h =
    rw (widen_small 8 n h) (rw (← e) (ground (arith, length-append xs ys, take_all xs ys)))

pub from_byte : (v : ℕ) (xs : List ℕ) → from 1 (v % 256 ∷ xs) ≡ some (v % 256)
unfolding from join_byte
from_byte v xs = ap some (zero-or _ ∙ omega arith)

-- A side data block as `ToBytes` can carry it.
pub record IsSendable (s : SideData) : Type 0 where
  pub kind_fits : s.kind < 256
  pub size_fits : length s.bytes < 2 ^ 31

abbrev pub AreSendable : List SideData → Type 0
AreSendable [] = Unit {0}
AreSendable (s ∷ rest) = IsSendable s × AreSendable rest

module _ (av : Av) where
  -- `av_malloc` gives a block for everything that an int can ask for.
  abbrev pub HasMemory : Type 0
  HasMemory = (n : ℕ) → n < 2 ^ 31 → av.malloc n ≡ true

  -- The side data added one after the other.
  unfoldable pub add_all : List SideData → Packet → Packet
  add_all [] p = p
  add_all (s ∷ rest) p = add_all rest (av.packet_add_side_data s p)

  module _ (memory : HasMemory) where
    pub malloc_size : (n : ℕ) → n < 2 ^ 31 → av.malloc (widen 8 n) ≡ true
    malloc_size n h = rw (widen_small 8 n h) (memory n h)

    read_side-write :
        (s : SideData) (tail : List ℕ) (r : Reader)
        → IsSendable s
        → r.rest ≡ s.kind % 256 ∷ (to 4 (length s.bytes % 2 ^ 32) ++ (s.bytes ++ tail))
        → read_side av r ≡ (
          next tt,
          record {
            rest = tail;
            pos = r.pos + (5 + length s.bytes);
            filled = record r.filled { packet = av.packet_add_side_data s r.filled.packet };
          },
        )
    read_side-write s tail r ok e =
        read_side_lem av r s.kind n s.bytes kind size (malloc_size n ok.size_fits) block
        ∙ ap
            (λ (t : List ℕ). (
              next tt,
              record {
                rest = t;
                pos = r.pos + (5 + n);
                filled = record r.filled { packet = av.packet_add_side_data s r.filled.packet };
              },
            ))
            behind
      where
        n : ℕ
        n = length s.bytes

        kind : from 1 r.rest ≡ some s.kind
        kind =
            ap (from 1) e
            ∙ from_byte s.kind (to 4 (n % 2 ^ 32) ++ (s.bytes ++ tail))
            ∙ ap some (omega (arith, ok.kind_fits))

        size : from 4 (drop 1 r.rest) ≡ some n
        size =
            ap (λ (x : List ℕ). from 4 (drop 1 x)) e
            ∙ from-to_32 (n % 2 ^ 32) (s.bytes ++ tail) (omega arith)
            ∙ ap some (omega (arith, ok.size_fits))

        after_size : drop 5 r.rest ≡ s.bytes ++ tail
        after_size = ap (drop 5) e ∙ drop_to 4 (n % 2 ^ 32) (s.bytes ++ tail)

        block : copy (widen 8 n) (drop 5 r.rest) ≡ some s.bytes
        block = ap (copy (widen 8 n)) after_size ∙ copy_part n s.bytes tail refl ok.size_fits

        behind : drop (5 + n) r.rest ≡ tail
        behind = drop-add 5 n r.rest ∙ ap (drop n) after_size ∙ drop_all s.bytes tail

    pub read_sides-write :
        (l : List SideData) (tail : List ℕ) (r : Reader)
        → AreSendable l
        → r.rest ≡ write_side_data l ++ tail
        → read_sides av (length l) r ≡ (
          next tt,
          record {
            rest = tail;
            pos = r.pos + length (write_side_data l);
            filled = record r.filled { packet = add_all l r.filled.packet };
          },
        )
    unfolding read_sides write_side_data add_all
    read_sides-write [] tail r ok e =
        ap₂
          (λ (t : List ℕ) (p : ℕ).
            let r' : Reader = record { rest = t; pos = p; filled = r.filled } in
            let q : Step (Unit {0}) × Reader = (next tt, r') in q)
          e (omega arith)
    read_sides-write (s ∷ l) tail r ok e =
        ap (λ (q : Step (Unit {0}) × Reader). continue q (λ _. read_sides av (length l))) first
        ∙ read_sides-write l tail r' ok.1 refl
        ∙ ap
            (λ (p : ℕ).
              let q : Step (Unit {0}) × Reader = (
                next tt,
                record {
                  rest = tail;
                  pos = p;
                  filled = record r.filled { packet = add_all l r'.filled.packet };
                },
              ) in
              q)
            pos
      where
        n : ℕ
        n = length s.bytes

        r' : Reader
        r' = record {
          rest = write_side_data l ++ tail;
          pos = r.pos + (5 + n);
          filled = record r.filled { packet = av.packet_add_side_data s r.filled.packet };
        }

        regroup :
            (to 4 (n % 2 ^ 32) ++ (s.bytes ++ write_side_data l)) ++ tail
            ≡ to 4 (n % 2 ^ 32) ++ (s.bytes ++ (write_side_data l ++ tail))
        regroup = simp append_assoc

        first : read_side av r ≡ (next tt, r')
        first =
            read_side-write s (write_side_data l ++ tail) r ok.0
              (e ∙ ap (λ (x : List ℕ). s.kind % 256 ∷ x) regroup)

        pos :
            r.pos + (5 + n) + length (write_side_data l)
            ≡ r.pos + suc (length (to 4 (n % 2 ^ 32) ++ (s.bytes ++ write_side_data l)))
        pos = omega (
          arith,
          length-append (to 4 (n % 2 ^ 32)) (s.bytes ++ write_side_data l),
          length-to 4 (n % 2 ^ 32),
          length-append s.bytes (write_side_data l),
        )
