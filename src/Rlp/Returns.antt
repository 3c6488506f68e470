-- ===== src/Rlp/Returns.antt =====
-- `pack` returns for every value that can be written, with a bound on what it writes.
use neon_tests.Prelude.{
  ℕ, ◌+◌, ◌^◌, ◌<◌, ◌≤◌, ◌≡◌, refl, inl, inr, [], ◌∷◌, ◌++◌, arith, leb, ltb, length, length-append,
  reverse, Bool-cases,
}
use neon_tests.Prelude.Int.{ℤ, pos, negsuc}
use neon_tests.Py.{Result, ok, err, ◌>>=◌}
use neon_tests.Py.Bytes.{Bytes, to_little, to_bytes_big, byte_length}
use neon_tests.Py.Bytes.Laws.{
  to_bytes_big-ok, length-reverse-to_little, byte_length-le, lt-pow-byte_length,
}
use neon_tests.Py.Unicode.{encode_utf8}
use neon_tests.Rlp.{
  Item, Items, nothing, str, bytes, int, list, tuple, other, nil, cons, pack_long, pack_bytes,
  pack_int, pack_content, pack, pack_items, unpack_data,
}
use neon_tests.Rlp.Decoded.{decoded, Fits, FitsItems, IsText, IsSmall}
use neon_tests.Rlp.RoundTrip.{unpack_data-pack}

abbrev pub text_weight : Result Bytes → ℕ
text_weight (ok bs) = length bs + 9
text_weight (err e) = 0

-- A bound on the packed length.
abbrev mutual
  pub weight : Item → ℕ
  weight nothing = 1
  weight (str s) = text_weight (encode_utf8 s)
  weight (bytes b) = length b + 9
  weight (int n) = 56
  weight (list xs) = weight_items xs + 9
  weight (tuple xs) = weight_items xs + 9
  weight other = 0

  pub weight_items : Items → ℕ
  weight_items nil = 0
  weight_items (cons x xs) = weight x + weight_items xs

abbrev pub IsOk : Result Bytes → Type 0
IsOk (ok bs) = Unit
IsOk (err e) = ⊥

abbrev pub IsNumber : ℤ → Type 0
IsNumber (pos n) = n < 256 ^ 55
IsNumber (negsuc n) = ⊥

-- No value of another type, no negative number and none above 55 bytes, no lone surrogate.
abbrev mutual
  pub Packable : Item → Type 0
  Packable nothing = Unit
  Packable (str s) = IsOk (encode_utf8 s)
  Packable (bytes b) = Unit
  Packable (int n) = IsNumber n
  Packable (list xs) = PackableItems xs
  Packable (tuple xs) = PackableItems xs
  Packable other = ⊥

  pub PackableItems : Items → Type 0
  PackableItems nil = Unit
  PackableItems (cons x xs) = Packable x × PackableItems xs

abbrev Returns : Result Bytes → ℕ → Type 0
Returns r n = (bs : Bytes) × (r ≡ ok bs) × (length bs ≤ n)

one_byte-ok : (v : ℕ) → v < 256 → to_bytes_big 1 v ≡ ok (v ∷ [])
unfolding to_bytes_big to_little
one_byte-ok v h = ground arith

pack_long-Returns :
    (base : ℕ) (content : Bytes)
    → base + 8 < 256
    → length content < 256 ^ 8
    → Returns (pack_long base content) (length content + 9)
unfolding pack_long
pack_long-Returns base content hb hl =
    let n = byte_length (length content) in
    let small : n ≤ 8 = byte_length-le (length content) 8 hl in
    let digits : Bytes = reverse (to_little n (length content)) in
    (
      (base + n) ∷ (digits ++ content),
      rw (
        one_byte-ok (base + n) (omega arith),
        to_bytes_big-ok n (length content) (lt-pow-byte_length (length content)),
      ),
      omega (arith, length-append {0} digits content, length-reverse-to_little n (length content)),
    )

short-Returns :
    (base : ℕ) (content : Bytes)
    → length content + base < 256
    → Returns
        (do head ← to_bytes_big 1 (length content + base); ok (head ++ content))
        (length content + 9)
short-Returns base content h =
    ((length content + base) ∷ content, rw (one_byte-ok (length content + base) h), omega arith)

pack_bytes-Returns :
    (content : Bytes) → length content < 256 ^ 8 → Returns (pack_bytes content) (length content + 9)
unfolding pack_bytes
pack_bytes-Returns content h = elim (Bool-cases (leb (length content) 55)) [
  | inl small ↦ rw small (short-Returns 0x80 content (ground arith))
  | inr large ↦ rw large (pack_long-Returns 0xB7 content (omega arith) h)
]

pack_content-Returns :
    (content : Bytes)
    → length content < 256 ^ 8
    → Returns (pack_content content) (length content + 9)
unfolding pack_content
pack_content-Returns content h = elim (Bool-cases (leb (length content) 55)) [
  | inl small ↦ rw small (short-Returns 0xC0 content (ground arith))
  | inr large ↦ rw large (pack_long-Returns 0xF7 content (omega arith) h)
]

text-Returns :
    (r : Result Bytes)
    → IsOk r
    → text_weight r < 256 ^ 8
    → Returns (r >>= pack_bytes) (text_weight r)
text-Returns (ok bs) h l = pack_bytes-Returns bs (omega arith)
text-Returns (err e) h l = absurd h

pack_int-Returns : (n : ℤ) → IsNumber n → Returns (pack_int n) 56
unfolding pack_int
pack_int-Returns (negsuc n) h = absurd h
pack_int-Returns (pos n) h = elim (Bool-cases (ltb n 0x80)) [
  | inl small ↦ rw small (n ∷ [], one_byte-ok n (ground arith), omega arith)
  | inr large ↦
      let size : byte_length n ≤ 55 = byte_length-le n 55 h in
      rw
        (
          large,
          one_byte-ok (byte_length n + 0x80) (omega arith),
          to_bytes_big-ok (byte_length n) n (lt-pow-byte_length n),
        )
        (
          (byte_length n + 0x80) ∷ reverse (to_little (byte_length n) n),
          refl,
          omega (arith, length-reverse-to_little (byte_length n) n),
        )
]

-- The packed elements, joined, and the header before them.
cons-Returns :
    (x : Item) (xs : Items) (m n : ℕ)
    → Returns (pack x) m
    → Returns (pack_items xs) n
    → Returns (do b ← pack x; bs ← pack_items xs; ok (b ++ bs)) (m + n)
cons-Returns x xs m n (b, e, l) (bs, e', l') =
    (b ++ bs, rw (e, e'), omega (arith, length-append {0} b bs))

list-Returns :
    (x : Item) (xs : Items) (m n : ℕ)
    → m + n + 9 < 256 ^ 8
    → Returns (pack x) m
    → Returns (pack_items xs) n
    → Returns (do b ← pack x; bs ← pack_items xs; pack_content (b ++ bs)) (m + n + 9)
list-Returns x xs m n h (b, e, l) (bs, e', l') =
    let (res, e'', l'') = pack_content-Returns (b ++ bs) (omega (arith, length-append {0} b bs)) in
    (res, rw (e, e') e'', omega (arith, length-append {0} b bs))

mutual
  unfolding pack

  pack-Returns : (x : Item) → Packable x → weight x < 256 ^ 8 → Returns (pack x) (weight x)
  pack-Returns nothing p h = (0x80 ∷ [], one_byte-ok 0x80 (omega arith), omega arith)
  pack-Returns (str s) p h = text-Returns (encode_utf8 s) p h
  pack-Returns (bytes b) p h = pack_bytes-Returns b (omega arith)
  pack-Returns (int n) p h = pack_int-Returns n p
  pack-Returns (list nil) p h = (0xC0 ∷ [], one_byte-ok 0xC0 (omega arith), omega arith)
  pack-Returns (list (cons x xs)) p h =
      list-Returns x xs (weight x) (weight_items xs) h (pack-Returns x p.0 (omega arith))
        (pack_items-Returns xs p.1 (omega arith))
  pack-Returns (tuple nil) p h = (0xC0 ∷ [], one_byte-ok 0xC0 (omega arith), omega arith)
  pack-Returns (tuple (cons x xs)) p h =
      list-Returns x xs (weight x) (weight_items xs) h (pack-Returns x p.0 (omega arith))
        (pack_items-Returns xs p.1 (omega arith))
  pack-Returns other p h = absurd p

  pack_items-Returns :
      (xs : Items)
      → PackableItems xs
      → weight_items xs < 256 ^ 8
      → Returns (pack_items xs) (weight_items xs)
  pack_items-Returns nil p h = ([], refl, omega arith)
  pack_items-Returns (cons x xs) p h =
      cons-Returns x xs (weight x) (weight_items xs) (pack-Returns x p.0 (omega arith))
        (pack_items-Returns xs p.1 (omega arith))

IsText-Fits : (r : Result Bytes) → text_weight r < 256 ^ 8 → IsText r
IsText-Fits (ok bs) h = omega arith
IsText-Fits (err e) h = tt

int-Fits : (n : ℤ) → IsNumber n → IsSmall n
int-Fits (pos n) h = h
int-Fits (negsuc n) h = tt

mutual
  Packable-Fits : (x : Item) → Packable x → weight x < 256 ^ 8 → Fits x
  Packable-Fits nothing p h = tt
  Packable-Fits (str s) p h = IsText-Fits (encode_utf8 s) h
  Packable-Fits (bytes b) p h = omega arith
  Packable-Fits (int n) p h = int-Fits n p
  Packable-Fits (list xs) p h = PackableItems-Fits xs p (omega arith)
  Packable-Fits (tuple xs) p h = PackableItems-Fits xs p (omega arith)
  Packable-Fits other p h = tt

  PackableItems-Fits : (xs : Items) → PackableItems xs → weight_items xs < 256 ^ 8 → FitsItems xs
  PackableItems-Fits nil p h = tt
  PackableItems-Fits (cons x xs) p h =
      (Packable-Fits x p.0 (omega arith), PackableItems-Fits xs p.1 (omega arith))

-- For every value that can be written, of a weight below 2 ^ 64, `pack` returns bytes, and `unpack`
-- of these bytes followed by anything returns the decoded value and leaves what follows.
pub pack-unpack_data :
    (x : Item)
    → Packable x
    → weight x < 256 ^ 8
    → (rest : Bytes)
    → (bs : Bytes) × (pack x ≡ ok bs) × (unpack_data (bs ++ rest) ≡ ok (decoded x, rest))
pack-unpack_data x p h rest =
    let (bs, e, l) = pack-Returns x p h in (bs, e, unpack_data-pack x rest (Packable-Fits x p h) e)
