-- ===== src/Py/Unicode.antt =====
-- `str.encode("utf8")` on code points.
use neon_tests.Prelude.{ℕ, ◌+◌, ◌/◌, ◌%◌, [], ◌∷◌, ◌++◌, ltb, ◌&&◌, leb, if◌then◌else◌}
use neon_tests.Prelude.Text.{Text}
use neon_tests.Py.Outcome.{Result, ok, err, unicode_error, ◌>>=◌}
use neon_tests.Py.Bytes.{Bytes}

-- A lone surrogate cannot be encoded.
pub encode_char : ℕ → Result Bytes
encode_char c =
    if ltb c 0x80
    then ok (c ∷ [])
    else if ltb c 0x800
    then ok ((0xC0 + c / 64) ∷ (0x80 + c % 64) ∷ [])
    else if leb 0xD800 c && leb c 0xDFFF
    then err unicode_error
    else if ltb c 0x10000
    then ok ((0xE0 + c / 4096) ∷ (0x80 + c / 64 % 64) ∷ (0x80 + c % 64) ∷ [])
    else ok
        ((0xF0 + c / 262144) ∷ (0x80 + c / 4096 % 64) ∷ (0x80 + c / 64 % 64) ∷ (0x80 + c % 64) ∷ [])

unfoldable pub encode_utf8 : Text → Result Bytes
unfolding encode_char
encode_utf8 [] = ok []
encode_utf8 (c ∷ cs) = do b ← encode_char c; bs ← encode_utf8 cs; ok (b ++ bs)
