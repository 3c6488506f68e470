-- ===== src/Py/Struct.antt =====
-- `struct.pack` for the two formats in use, "B" and "<H".
use neon_tests.Prelude.{◌/◌, ◌%◌, [], ◌∷◌, ltb, if◌then◌else◌}
use neon_tests.Prelude.Int.{ℤ, pos, negsuc}
use neon_tests.Py.Outcome.{Result, ok, err, struct_error}
use neon_tests.Py.Bytes.{Bytes}

unfoldable pub pack_u8 : ℤ → Result Bytes
pack_u8 (pos n) = if ltb n 256 then ok (n ∷ []) else err struct_error
pack_u8 (negsuc n) = err struct_error

unfoldable pub pack_u16 : ℤ → Result Bytes
pack_u16 (pos n) = if ltb n 65536 then ok ((n % 256) ∷ (n / 256) ∷ []) else err struct_error
pack_u16 (negsuc n) = err struct_error
