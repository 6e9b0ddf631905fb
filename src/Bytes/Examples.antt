-- ===== src/Bytes/Examples.antt =====
-- Results about bytes at concrete values.
use rtsp_wasm_player.Base.{◌-◌, ◌^◌, ◌≡◌, refl, [], ◌∷◌}
use rtsp_wasm_player.Bytes.{to, wire, join_byte}

to_big_endian : to 4 0x01020304 ≡ 1 ∷ 2 ∷ 3 ∷ 4 ∷ []
unfolding to
to_big_endian = refl

-- The largest negative 64-bit integer, which FFmpeg takes for "no timestamp", does not come back.
no_timestamp : wire 8 (2 ^ 63) ≡ 2 ^ 64 - 2 ^ 31
unfolding wire join_byte
no_timestamp = refl
