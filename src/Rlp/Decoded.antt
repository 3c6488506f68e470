-- ===== src/Rlp/Decoded.antt =====
-- What `unpack` makes of a packed value, and the values for which the two agree.
use neon_tests.Prelude.{◌^◌, ◌<◌, [], ◌∷◌, ltb, if◌then◌else◌, length, reverse}
use neon_tests.Prelude.Int.{ℤ, pos, negsuc}
use neon_tests.Py.{Result, ok, err}
use neon_tests.Py.Bytes.{Bytes, to_little, byte_length}
use neon_tests.Py.Unicode.{encode_utf8}
use neon_tests.Rlp.{Item, Items, nothing, str, bytes, int, list, tuple, other, nil, cons}

-- What comes back: an empty text or byte string as `None`, a number of 128 or more as its bytes,
-- an empty list as a tuple, any other tuple as a list.
unfoldable pub decoded_bytes : Bytes → Item
decoded_bytes [] = nothing
decoded_bytes (b ∷ bs) = bytes (b ∷ bs)

unfoldable pub decoded_text : Result Bytes → Item
unfolding decoded_bytes
decoded_text (ok bs) = decoded_bytes bs
decoded_text (err e) = nothing

unfoldable pub decoded_int : ℤ → Item
decoded_int (negsuc n) = nothing
decoded_int (pos n) =
    if ltb n 0x80 then int (pos n) else bytes (reverse (to_little (byte_length n) n))

unfoldable mutual
  unfolding decoded_bytes decoded_text decoded_int

  pub decoded : Item → Item
  decoded nothing = nothing
  decoded (str s) = decoded_text (encode_utf8 s)
  decoded (bytes b) = decoded_bytes b
  decoded (int n) = decoded_int n
  decoded (list nil) = tuple nil
  decoded (list (cons x xs)) = list (cons (decoded x) (decoded_items xs))
  decoded (tuple nil) = tuple nil
  decoded (tuple (cons x xs)) = list (cons (decoded x) (decoded_items xs))
  decoded other = nothing

  pub decoded_items : Items → Items
  decoded_items nil = nil
  decoded_items (cons x xs) = cons (decoded x) (decoded_items xs)

-- Byte strings below 2 ^ 64 bytes and numbers of at most 55 bytes.
abbrev pub IsText : Result Bytes → Type 0
IsText (ok bs) = length bs < 256 ^ 8
IsText (err e) = Unit

abbrev pub IsSmall : ℤ → Type 0
IsSmall (pos n) = n < 256 ^ 55
IsSmall (negsuc n) = Unit

abbrev mutual
  pub Fits : Item → Type 0
  Fits nothing = Unit
  Fits (str s) = IsText (encode_utf8 s)
  Fits (bytes b) = length b < 256 ^ 8
  Fits (int n) = IsSmall n
  Fits (list xs) = FitsItems xs
  Fits (tuple xs) = FitsItems xs
  Fits other = Unit

  pub FitsItems : Items → Type 0
  FitsItems nil = Unit
  FitsItems (cons x xs) = Fits x × FitsItems xs
