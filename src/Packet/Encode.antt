-- ===== src/Packet/Encode.antt =====
-- `Data::GetByteSize` and the `Data::ToBytes` of common/net/packet.h.
use rtsp_wasm_player.Base.{
  ℕ, ◌+◌, ◌-◌, ◌*◌, ◌%◌, ◌^◌, List, [], ◌∷◌, ◌++◌, ltb, ◌==◌, if◌then◌else◌, length, drop,
}
use rtsp_wasm_player.Bytes.{to}
use rtsp_wasm_player.Bytes.Text.{replicate}
use rtsp_wasm_player.Packet.{SideData, Packet, Data}

-- The loop of `GetByteSize`, started at `n`.
unfoldable pub add_side_sizes : ℕ → List SideData → ℕ
add_side_sizes n [] = n
add_side_sizes n (s ∷ rest) = add_side_sizes (n + (5 + length s.bytes)) rest

unfoldable pub get_byte_size : Packet → ℕ
unfolding add_side_sizes
get_byte_size p = add_side_sizes (2 + 1 + 4 + (8 * 4 + 4 * 4) + length p.bytes) p.side_data

-- `toc<uint8_t>`
abbrev pub to_byte : ℕ → List ℕ
to_byte v = v % 256 ∷ []

-- The loop over the side data.
unfoldable pub write_side_data : List SideData → List ℕ
write_side_data [] = []
write_side_data (s ∷ rest) =
    to_byte s.kind ++ (to 4 (length s.bytes % 2 ^ 32) ++ (s.bytes ++ write_side_data rest))

abbrev pub ver_major : ℕ
ver_major = 1

abbrev pub ver_minor : ℕ
ver_minor = 0

unfoldable pub write_packet : Packet → List ℕ
unfolding write_side_data
write_packet p =
    to 8 p.pts
    ++ (to 8 p.dts
        ++ (to 4 (length p.bytes % 2 ^ 32)
            ++ (p.bytes
                ++ (to 4 p.stream_index
                    ++ (to 4 p.flags
                        ++ (to 4 (length p.side_data % 2 ^ 32)
                            ++ (write_side_data p.side_data
                                ++ (to 8 p.duration ++ to 8 p.pos))))))))

-- Everything that is written, in the order of the calls.
unfoldable pub write : Data → List ℕ
unfolding write_packet
write d =
    to_byte ver_major
    ++ (to_byte ver_minor
        ++ (to_byte d.kind ++ (to 4 (get_byte_size d.packet % 2 ^ 32) ++ write_packet d.packet)))

pub data Written : Type 0 where
  done : List ℕ → Written
  error_not_enough aborted : Written

-- `ToBytes(bytes, bytes_n)` into a buffer of `bytes_n` bytes; `done` has the whole buffer.
unfoldable pub to_buffer : List ℕ → Data → Written
to_buffer buffer d =
    if ltb (length buffer) (get_byte_size d.packet)
    then error_not_enough
    else if get_byte_size d.packet == length (write d)
    then done (write d ++ drop (length (write d)) buffer)
    else aborted

-- `bytes.resize(n)` if the vector is shorter.
unfoldable pub grow : ℕ → List ℕ → List ℕ
unfolding replicate
grow n bytes = if ltb (length bytes) n then bytes ++ replicate (n - length bytes) 0 else bytes

-- `ToBytes(std::vector &)`
unfoldable pub to_vector : List ℕ → Data → Written
to_vector bytes d = to_buffer (grow (get_byte_size d.packet) bytes) d

-- `ToBytes()`
unfoldable pub to_bytes : Data → Written
unfolding to_vector
to_bytes d = to_vector [] d
