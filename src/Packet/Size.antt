-- ===== src/Packet/Size.antt =====
-- `ToBytes` fills exactly `GetByteSize` bytes, and cannot fail on a vector.
use rtsp_wasm_player.Base.{
  ℕ, ◌+◌, ◌-◌, ◌*◌, ◌%◌, ◌^◌, ◌≤◌, ◌<◌, ◌≡◌, refl, ◌∙◌, ◌⊎◌, inl, inr, List, [], ◌∷◌, ◌++◌,
  append-nil, arith, ltb, ==_self, Bool-cases, length, drop, length-append,
}
use rtsp_wasm_player.Bytes.{to}
use rtsp_wasm_player.Bytes.Words.{length-to}
use rtsp_wasm_player.Bytes.Text.{replicate, length-replicate}
use rtsp_wasm_player.Packet.{SideData, Packet, Data}
use rtsp_wasm_player.Packet.Encode.{
  add_side_sizes, get_byte_size, write_side_data, write_packet, write, done, error_not_enough,
  to_buffer, grow, to_vector, to_bytes,
}

add_side_sizes-eq :
    (l : List SideData) (n : ℕ) → add_side_sizes n l ≡ n + length (write_side_data l)
unfolding add_side_sizes write_side_data
add_side_sizes-eq [] n = omega arith
add_side_sizes-eq (s ∷ rest) n = omega (
  arith,
  add_side_sizes-eq rest (n + (5 + length s.bytes)),
  length-append (to 4 (length s.bytes % 2 ^ 32)) (s.bytes ++ write_side_data rest),
  length-to 4 (length s.bytes % 2 ^ 32),
  length-append s.bytes (write_side_data rest),
)

pub length-to_append : (k v : ℕ) (xs : List ℕ) → length (to k v ++ xs) ≡ k + length xs
length-to_append k v xs = omega (arith, length-append (to k v) xs, length-to k v)

pub length-write_packet :
    (p : Packet)
    → length (write_packet p) ≡ 48 + length p.bytes + length (write_side_data p.side_data)
unfolding write_packet
length-write_packet p = simp (length-to_append, length-append, length-to) (omega arith)

-- `ToBytes` writes exactly as many bytes as `GetByteSize` says, so its fatal check never fires.
pub length-write : (d : Data) → length (write d) ≡ get_byte_size d.packet
unfolding write get_byte_size
length-write d = omega (
  arith,
  length-to_append 4 (get_byte_size d.packet % 2 ^ 32) (write_packet d.packet),
  length-write_packet d.packet,
  add_side_sizes-eq d.packet.side_data (2 + 1 + 4 + (8 * 4 + 4 * 4) + length d.packet.bytes),
)

drop_whole : (n : ℕ) (xs : List ℕ) → length xs ≡ n → drop n xs ≡ []
drop_whole n xs e = rw (← e) (go xs)
  where
    go : (xs : List ℕ) → drop (length xs) xs ≡ []
    go [] = refl
    go (x ∷ xs) = go xs

length-grow : (n : ℕ) (bytes : List ℕ) → n ≤ length (grow n bytes)
unfolding grow
length-grow n bytes = ground (
  arith,
  length-append bytes (replicate (n - length bytes) 0),
  length-replicate (n - length bytes) 0,
)

-- Into a buffer `ToBytes` either reports that it is too short and writes nothing, or writes the
-- packet at its start and leaves the rest.
pub to_buffer_lem :
    (buffer : List ℕ) (d : Data)
    → ((length buffer < get_byte_size d.packet) × (to_buffer buffer d ≡ error_not_enough))
      ⊎ ((get_byte_size d.packet ≤ length buffer)
          × (to_buffer buffer d ≡ done (write d ++ drop (get_byte_size d.packet) buffer)))
unfolding to_buffer
to_buffer_lem buffer d = elim (Bool-cases (ltb (length buffer) (get_byte_size d.packet))) [
  | inl e ↦ inl (ground arith, rw e)
  | inr e ↦ inr (ground arith, rw (e, length-write d, ==_self (get_byte_size d.packet)))
]

-- Into a vector, whatever it holds and however short it is, the packet is always written.
pub to_vector_lem :
    (bytes : List ℕ) (d : Data)
    → to_vector bytes d
      ≡ done (write d ++ drop (get_byte_size d.packet) (grow (get_byte_size d.packet) bytes))
unfolding to_vector
to_vector_lem bytes d = elim (to_buffer_lem (grow (get_byte_size d.packet) bytes) d) [
  | inl short ↦ absurd (omega (arith, length-grow (get_byte_size d.packet) bytes))
  | inr long ↦ long.1
]

length-grow_nil : (n : ℕ) → length (grow n []) ≡ n
unfolding grow
length-grow_nil n = ground (arith, length-replicate (n - 0) 0)

-- A new vector holds the packet's bytes and nothing else.
pub to_bytes_lem : (d : Data) → to_bytes d ≡ done (write d)
unfolding to_bytes
to_bytes_lem d =
    to_vector_lem [] d
    ∙ rw (
      drop_whole (get_byte_size d.packet) (grow (get_byte_size d.packet) [])
          (length-grow_nil (get_byte_size d.packet)),
      append-nil,
    )
