-- ===== src/Packet/Decode.antt =====
-- `Data::FromBytes` of common/net/packet.h. It fills the object as it goes, so an error leaves
-- what was read before it.
use rtsp_wasm_player.Base.{
  ℕ, zero, suc, ◌+◌, ◌^◌, Bool, Option, none, some, List, ltb, ◌==◌, if◌then◌else◌, length, drop,
}
use rtsp_wasm_player.Bytes.{from, copy, widen}
use rtsp_wasm_player.Packet.{SideData, Packet, Data}

-- The calls into FFmpeg: whether `av_malloc(n)` gives a block, `av_packet_from_data` and
-- `av_packet_add_side_data`.
pub record Av : Type 0 where
  pub malloc : ℕ → Bool
  pub packet_from_data : List ℕ → Packet → Packet
  pub packet_add_side_data : SideData → Packet → Packet

-- `fault` is a read behind the end of the bytes, `aborted` the fatal log line at the end.
pub data Status : Type 0 where
  success error_not_enough error_alloc_fail fault aborted : Status

-- The bytes from `bytes + pos` on, `pos`, and the object that is filled.
pub record Reader : Type 0 where
  pub rest : List ℕ
  pub pos : ℕ
  pub filled : Data

pub data Step (A : Type 0) : Type 0 where
  next : A → Step A
  stop : Status → Step A

abbrev pub Read : Type 0 → Type 0
Read A = Reader → Step A × Reader

abbrev pub continue : {A B : Type 0} → Step A × Reader → (A → Read B) → Step B × Reader
continue (next a, r) k = k a r
continue (stop s, r) k = (stop s, r)

infixl 5 ◌>>=◌ ◌>>◌
abbrev pub ◌>>=◌ : {A B : Type 0} → Read A → (A → Read B) → Read B
◌>>=◌ m k r = continue (m r) k

abbrev pub ◌>>◌ : {B : Type 0} → Read (Unit {0}) → Read B → Read B
m >> k = m >>= λ _. k

abbrev pub or_fault {ℓ} : {A : Type ℓ} {B : Type 0} → Option A → (A → Read B) → Read B
or_fault none k r = (stop fault, r)
or_fault (some a) k r = k a r

-- `from<T>(bytes + pos + offset)` for a type of `size` bytes.
abbrev pub peek : ℕ → ℕ → Read ℕ
peek size offset r = or_fault (from size (drop offset r.rest)) (λ v r. (next v, r)) r

-- A single byte.
abbrev pub peek_byte : ℕ → Read ℕ
peek_byte offset = peek 1 offset

-- `pos += n`
abbrev pub advance : ℕ → Read (Unit {0})
advance n r = (next tt, record r { rest = drop n r.rest; pos = r.pos + n })

abbrev pub fill : (Packet → Packet) → Read (Unit {0})
fill f r = (next tt, record r { filled = record r.filled { packet = f r.filled.packet } })

module _ (av : Av) where
  -- `av_malloc(size)` and the copy of `size` bytes at `offset` into the block. The int becomes a
  -- `size_t`, so a negative one becomes huge.
  abbrev pub take_block : ℕ → ℕ → Read (List ℕ)
  take_block size offset r =
      if av.malloc (widen 8 size)
      then or_fault (copy (widen 8 size) (drop offset r.rest)) (λ b r. (next b, r)) r
      else (stop error_alloc_fail, r)

  -- One round of the side data loop.
  unfoldable pub read_side : Read (Unit {0})
  read_side = do
    kind ← peek_byte 0
    size ← peek 4 1
    block ← take_block size 5
    fill (av.packet_add_side_data (record { kind = kind; bytes = block }))
    advance (5 + size)

  unfoldable pub read_sides : ℕ → Read (Unit {0})
  read_sides zero r = (next tt, r)
  read_sides (suc n) r = (read_side >> read_sides n) r

  -- `i < end` on ints: a negative count is no round.
  abbrev pub rounds : ℕ → ℕ
  rounds n = if ltb n (2 ^ 31) then n else 0

  unfoldable pub read_head : Read (Unit {0})
  read_head = do
    pts ← peek 8 0
    fill (λ p. record p { pts = pts })
    dts ← peek 8 8
    fill (λ p. record p { dts = dts })
    size ← peek 4 16
    block ← (advance 20 >> take_block size 0)
    advance size
    fill (av.packet_from_data block)

  unfoldable pub read_middle : Read (Unit {0})
  read_middle = do
    index ← peek 4 0
    fill (λ p. record p { stream_index = index })
    flags ← peek 4 4
    fill (λ p. record p { flags = flags })
    elems ← peek 4 8
    advance 12
    read_sides (rounds elems)

  -- Both fields are read at the same place.
  unfoldable pub read_tail : Read (Unit {0})
  read_tail = do
    duration ← peek 8 0
    fill (λ p. record p { duration = duration })
    pos ← peek 8 0
    fill (λ p. record p { pos = pos })
    advance 16

  unfoldable pub read_packet : Read (Unit {0})
  read_packet = do read_head; read_middle; read_tail

  -- The last check, and what `FromBytes` returns with the object.
  abbrev pub finish : ℕ → Step (Unit {0}) × Reader → Status × Data
  finish pkg_size (stop s, r) = (s, r.filled)
  finish pkg_size (next _, r) = (if pkg_size == r.pos then success else aborted, r.filled)

  abbrev pub checked : List ℕ → Option ℕ → Option ℕ → Data → Status × Data
  checked bytes (some kind) (some pkg_size) d =
      if ltb (length bytes) pkg_size
      then (error_not_enough, record d { kind = kind })
      else finish pkg_size
          (read_packet (record { rest = drop 7 bytes; pos = 7; filled = record d { kind = kind } }))
  checked bytes _ _ d = (fault, d)

  -- `FromBytes(bytes, bytes_n)` on the object `d`, with `bytes_n` the length of the bytes.
  unfoldable pub from_bytes : List ℕ → Data → Status × Data
  from_bytes bytes d =
      if ltb (length bytes) 7
      then (error_not_enough, d)
      else checked bytes (from 1 (drop 2 bytes)) (from 4 (drop 3 bytes)) d
