-- ===== src/Bytes.antt =====
-- common/util/bytes.h: integers and text to bytes and back, big endian. A C++ integer is its bit
-- pattern, a number below 2 ^ 32 or 2 ^ 64.
pub mod Words
pub mod Text
mod Examples
use rtsp_wasm_player.Base.{
  ℕ, zero, suc, ◌+◌, ◌-◌, ◌*◌, ◌/◌, ◌%◌, ◌^◌, bit_and, bit_or, Option, none, some, List, [], ◌∷◌,
  ltb, ◌==◌, if◌then◌else◌, length, take,
}

-- `to<T>` for an integer type of `size` bytes: the bytes from index `size - k` on. The value of
-- `(value >> (8 * (size - i - 1))) & 0xff` is the same for a signed and an unsigned type.
unfoldable pub to_loop : ℕ → ℕ → List ℕ
to_loop zero value = []
to_loop (suc k) value = bit_and (value / 2 ^ (8 * k)) 255 % 256 ∷ to_loop k value

unfoldable pub to : ℕ → ℕ → List ℕ
unfolding to_loop
to size value = to_loop size value

-- `bytes[i] << s`: the byte is promoted to a 32-bit int. A count from 32 on is undefined in C++;
-- this is what the shift instructions of WebAssembly and x86-64 compute.
unfoldable pub shift_int : ℕ → ℕ → ℕ
shift_int byte s = byte * 2 ^ (s % 32) % 2 ^ 32

-- An int where a `T` of `size` bytes is wanted: 8 bytes extend the sign.
unfoldable pub widen : ℕ → ℕ → ℕ
widen size v = if size == 8 then (if ltb v (2 ^ 31) then v else v + (2 ^ 64 - 2 ^ 32)) else v

-- One round of the loop of `from<T>`, with `k` rounds left after it.
unfoldable pub join_byte : ℕ → ℕ → ℕ → ℕ → ℕ
unfolding shift_int widen
join_byte size k value byte = bit_or value (widen size (shift_int byte (8 * k)))

-- `from<T>`; `none` is a read behind the end of the bytes.
unfoldable pub from_loop : ℕ → ℕ → ℕ → List ℕ → Option ℕ
from_loop size zero value bytes = some value
from_loop size (suc k) value [] = none
from_loop size (suc k) value (b ∷ bytes) = from_loop size k (join_byte size k value b) bytes

unfoldable pub from : ℕ → List ℕ → Option ℕ
unfolding from_loop
from size bytes = from_loop size size 0 bytes

-- `from(bytes, data, size)`: copies a block.
unfoldable pub copy : ℕ → List ℕ → Option (List ℕ)
copy size bytes = if ltb (length bytes) size then none else some (take size bytes)

-- The value that `from<T>` gives for the bytes that `to<T>` wrote.
unfoldable pub read_loop : ℕ → ℕ → ℕ → List ℕ → ℕ
read_loop size zero value bytes = value
read_loop size (suc k) value [] = value
read_loop size (suc k) value (b ∷ bytes) = read_loop size k (join_byte size k value b) bytes

unfoldable pub wire : ℕ → ℕ → ℕ
unfolding read_loop to
wire size value = read_loop size size 0 (to size value)
