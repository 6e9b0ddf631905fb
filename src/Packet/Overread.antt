-- ===== src/Packet/Overread.antt =====
-- What `FromBytes` makes of a message whose inner size is wrong.
use rtsp_wasm_player.Base.{
  ℕ, ◌+◌, ◌^◌, ◌≤◌, ◌<◌, ◌≡◌, sym, ap, ◌∙◌, some, List, arith, length, drop, length-drop,
}
use rtsp_wasm_player.Bytes.{from, copy}
use rtsp_wasm_player.Bytes.Words.{widen_small}
use rtsp_wasm_player.Packet.{Data}
use rtsp_wasm_player.Packet.Decode.{
  Av, Status, fault, Reader, Step, Read, next, stop, continue, read_head, read_packet, from_bytes,
  finish,
}
use rtsp_wasm_player.Packet.Reads.{HasMemory, malloc_size, drop-add}
use rtsp_wasm_player.Packet.Roundtrip.{from_bytes_lem}

module _ (av : Av) (memory : HasMemory av) where
  short_head :
      (r : Reader) (a b n : ℕ)
      → from 8 r.rest ≡ some a
      → from 8 (drop 8 r.rest) ≡ some b
      → from 4 (drop 16 r.rest) ≡ some n
      → n < 2 ^ 31
      → length (drop 20 r.rest) < n
      → (read_head av r).0 ≡ stop fault
  unfolding read_head copy
  short_head r a b n e₁ e₂ e₃ small short =
      ground (arith, malloc_size av memory n small, widen_small 8 n small)

  stopped :
      (q : Step (Unit {0}) × Reader) (k : Read (Unit {0})) (n : ℕ)
      → q.0 ≡ stop fault
      → (finish av n (continue q (λ _. k))).0 ≡ fault
  stopped (next _, r) k n e = absurd (cc e)
  stopped (stop s, r) k n e = cc e

  -- In a message of at least 27 bytes the outer size is checked and the inner one is not: where the
  -- payload's size field, below 2 ^ 31, says more than is left of the message, `FromBytes`, once
  -- memory is allocated, reads behind the message.
  pub from_bytes_overreads :
      (bytes : List ℕ) (old : Data) (kind pkg_size a b n : ℕ)
      → from 1 (drop 2 bytes) ≡ some kind
      → from 4 (drop 3 bytes) ≡ some pkg_size
      → from 8 (drop 7 bytes) ≡ some a
      → from 8 (drop 15 bytes) ≡ some b
      → from 4 (drop 23 bytes) ≡ some n
      → 27 ≤ length bytes
      → pkg_size ≤ length bytes
      → n < 2 ^ 31
      → length bytes < 27 + n
      → (from_bytes av bytes old).0 ≡ fault
  unfolding read_packet
  from_bytes_overreads bytes old kind pkg_size a b n e₁ e₂ e₃ e₄ e₅ long fits small short =
      ap (λ (r : Status × Data). r.0)
        (from_bytes_lem av memory bytes old kind pkg_size (omega arith) e₁ e₂ fits)
      ∙ stopped (read_head av r) _ pkg_size
          (short_head r a b n e₃ (ap (from 8) at_8 ∙ e₄) (ap (from 4) at_16 ∙ e₅) small behind)
    where
      r : Reader
      r = record { rest = drop 7 bytes; pos = 7; filled = record old { kind = kind } }

      at_8 : drop 8 (drop 7 bytes) ≡ drop 15 bytes
      at_8 = sym (drop-add 7 8 bytes)

      at_16 : drop 16 (drop 7 bytes) ≡ drop 23 bytes
      at_16 = sym (drop-add 7 16 bytes)

      behind : length (drop 20 (drop 7 bytes)) < n
      behind = omega (arith, length-drop 20 (drop 7 bytes), length-drop 7 bytes)
