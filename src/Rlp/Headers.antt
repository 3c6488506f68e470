-- ===== src/Rlp/Headers.antt =====
-- The headers that `pack` writes, and how `unpack` reads each of them.
use neon_tests.Prelude.{
  ℕ, zero, suc, ◌+◌, ◌-◌, ◌*◌, ◌^◌, ◌<◌, ◌≤◌, ◌≡◌, ◌≢◌, refl, sym, ap, subst, ◌∙◌, inl, inr, [],
  ◌∷◌, ◌++◌, List, append_assoc, append-nil, arith, leb, ltb, ◌==◌, Bool, true, false,
  if◌then◌else◌, length, take, drop, length-append, take-append_self, drop-append_self, reverse,
  Bool-cases,
}
use neon_tests.Prelude.Int.{ℤ, pos, negsuc}
use neon_tests.Py.{ok, ◌>>=◌, >>=-eq-ok}
use neon_tests.Py.Bytes.{Bytes, to_little, to_bytes_big, from_bytes_big, byte_length}
use neon_tests.Py.Bytes.Laws.{
  to_bytes_big-eq-ok, from_bytes_big-reverse, length-reverse-to_little, byte_length_pos,
  byte_length-le, lt-pow-byte_length,
}
use neon_tests.Rlp.{
  Items, bytes, int, list, pack_long, pack_bytes, pack_int, pack_content, unpack, unpack_items,
}
use neon_tests.Rlp.Decoded.{decoded_bytes, decoded_int, IsSmall}

pub take_at {ℓ} : {A : Type ℓ} (n : ℕ) (xs ys : List A) → length xs ≡ n → take n (xs ++ ys) ≡ xs
take_at n xs ys h = rw (← h) (take-append_self xs ys)

pub drop_at {ℓ} : {A : Type ℓ} (n : ℕ) (xs ys : List A) → length xs ≡ n → drop n (xs ++ ys) ≡ ys
drop_at n xs ys h = rw (← h) (drop-append_self xs ys)

-- The five kinds of header.
pub unpack-low :
    (f n : ℕ) (rest : Bytes) → n < 0x80 → unpack (suc f) (n ∷ rest) ≡ ok (int (pos n), rest)
unfolding unpack
unpack-low f n rest h = ground arith

pub unpack-short :
    (f n : ℕ) (rest : Bytes)
    → 0 < n
    → n ≤ 55
    → unpack (suc f) ((n + 0x80) ∷ rest) ≡ ok (bytes (take n rest), drop n rest)
unfolding unpack
unpack-short f n rest p h = let e : n + 0x80 - 0x80 ≡ n = omega arith in rw e (ground arith)

pub unpack-long :
    (f n : ℕ) (rest : Bytes)
    → 0 < n
    → n ≤ 8
    → unpack (suc f) ((0xB7 + n) ∷ rest)
      ≡ ok (
        bytes (take (from_bytes_big (take n rest)) (drop n rest)),
        drop (from_bytes_big (take n rest)) (drop n rest),
      )
unfolding unpack
unpack-long f n rest p h = let e : 0xB7 + n - 0xB7 ≡ n = omega arith in rw e (ground arith)

pub unpack-short_list :
    (f n : ℕ) (rest : Bytes)
    → 0 < n
    → n ≤ 55
    → unpack (suc f) ((n + 0xC0) ∷ rest)
      ≡ (do lst ← unpack_items f (take n rest); ok (list lst, drop n rest))
unfolding unpack
unpack-short_list f n rest p h = let e : n + 0xC0 - 0xC0 ≡ n = omega arith in rw e (ground arith)

pub unpack-long_list :
    (f n : ℕ) (rest : Bytes)
    → 0 < n
    → n ≤ 8
    → unpack (suc f) ((0xF7 + n) ∷ rest) ≡ (do
      lst ← unpack_items f (take (from_bytes_big (take n rest)) (drop n rest))
      ok (list lst, drop (from_bytes_big (take n rest)) (drop n rest)))
unfolding unpack
unpack-long_list f n rest p h = let e : 0xF7 + n - 0xF7 ≡ n = omega arith in rw e (ground arith)

pub one_byte : (v : ℕ) {h : Bytes} → to_bytes_big 1 v ≡ ok h → (v < 256) × (h ≡ v ∷ [])
unfolding to_bytes_big to_little
one_byte v e = ground arith

pub pack_long-eq-ok :
    (base : ℕ) (content : Bytes) {bs : Bytes}
    → pack_long base content ≡ ok bs
    → let n = byte_length (length content) in
      (base + n < 256) × (bs ≡ (base + n) ∷ (reverse (to_little n (length content)) ++ content))
unfolding pack_long
pack_long-eq-ok base content h =
    let (head, e1, h1) = >>=-eq-ok (to_bytes_big 1 (base + byte_length (length content))) _ h in
    let (len, e2, h2) =
      >>=-eq-ok (to_bytes_big (byte_length (length content)) (length content)) _ h1 in
    let (lt, e3) = one_byte (base + byte_length (length content)) e1 in
    let (lt', e4) = to_bytes_big-eq-ok (byte_length (length content)) (length content) e2 in
    (lt, cc)

-- The digits of a length, then what it measures, then the rest.
pub long_size : Bytes → ℕ
long_size content = byte_length (length content)

pub long_digits : Bytes → Bytes
unfolding long_size
long_digits content = reverse (to_little (long_size content) (length content))

module _ (content rest : Bytes) where
  pub take_digits :
      take (long_size content) (long_digits content ++ (content ++ rest)) ≡ long_digits content
  unfolding long_digits
  take_digits = take_at _ _ _ (length-reverse-to_little _ _)

  pub drop_digits :
      drop (long_size content) (long_digits content ++ (content ++ rest)) ≡ content ++ rest
  unfolding long_digits
  drop_digits = drop_at _ _ _ (length-reverse-to_little _ _)

pub digits_value : (content : Bytes) → from_bytes_big (long_digits content) ≡ length content
unfolding long_digits
digits_value content = from_bytes_big-reverse _ _ (lt-pow-byte_length (length content))

pub ruleset long_laws = (take_digits, drop_digits, digits_value, take-append_self, drop-append_self)

pub long_size_pos : (content : Bytes) → 0 < length content → 0 < long_size content
unfolding long_size
long_size_pos content p = byte_length_pos (length content) p

pub unpack-long_at :
    (f : ℕ) (content rest : Bytes)
    → 0 < length content
    → long_size content ≤ 8
    → unpack (suc f) ((0xB7 + long_size content) ∷ (long_digits content ++ (content ++ rest)))
      ≡ ok (bytes content, rest)
unpack-long_at f content rest p h =
    unpack-long f (long_size content) (long_digits content ++ (content ++ rest))
      (long_size_pos content p) h
    ∙ simp long_laws

pub unpack-long_list_at :
    (f : ℕ) (content rest : Bytes) {xs : Items}
    → 0 < length content
    → long_size content ≤ 8
    → unpack_items f content ≡ ok xs
    → unpack (suc f) ((0xF7 + long_size content) ∷ (long_digits content ++ (content ++ rest)))
      ≡ ok (list xs, rest)
unpack-long_list_at f content rest p h e =
    unpack-long_list f (long_size content) (long_digits content ++ (content ++ rest))
      (long_size_pos content p) h
    ∙ simp (long_laws, e)

pub decoded_bytes_pos :
    (content : Bytes) → 0 < length content → decoded_bytes content ≡ bytes content
unfolding decoded_bytes
decoded_bytes_pos [] h = absurd (omega arith)
decoded_bytes_pos (b ∷ bs) h = refl

-- A short header stands before its content.
pub short_head :
    (base : ℕ) (content : Bytes) {bs : Bytes}
    → (do head ← to_bytes_big 1 (length content + base); ok (head ++ content)) ≡ ok bs
    → bs ≡ (length content + base) ∷ content
short_head base content h =
    let (head, e, h1) = >>=-eq-ok (to_bytes_big 1 (length content + base)) _ h in
    let (lt, e') = one_byte (length content + base) e in cc

pub long_form :
    (base : ℕ) (content : Bytes) {bs : Bytes}
    → pack_long base content ≡ ok bs
    → (base + long_size content < 256)
      × (bs ≡ (base + long_size content) ∷ (long_digits content ++ content))
unfolding long_digits
long_form base content h = pack_long-eq-ok base content h

pub long_size_small : (content : Bytes) → length content < 256 ^ 8 → long_size content ≤ 8
unfolding long_size
long_size_small content h = byte_length-le (length content) 8 h

pub unpack-pack_bytes :
    (content : Bytes) {bs : Bytes} (f : ℕ) (rest : Bytes)
    → length content < 256 ^ 8
    → pack_bytes content ≡ ok bs
    → (0 < length bs) × (unpack (suc f) (bs ++ rest) ≡ ok (decoded_bytes content, rest))
unfolding pack_bytes decoded_bytes
unpack-pack_bytes [] f rest lt h = rw (short_head 0x80 [] h) (omega arith, unfold unpack in refl)
unpack-pack_bytes (b ∷ bs) f rest lt h = elim (Bool-cases (leb (length (b ∷ bs)) 55)) [
  | inl small ↦
      rw
        (
          short_head 0x80 (b ∷ bs) (rw small at h),
          unpack-short f (length (b ∷ bs)) (b ∷ (bs ++ rest)) (omega arith) (ground arith),
        )
        (omega arith, simp (take-append_self, drop-append_self))
  | inr large ↦
      rw ((long_form 0xB7 (b ∷ bs) (rw large at h)).1, append_assoc)
        (omega arith, unpack-long_at f (b ∷ bs) rest (omega arith) (long_size_small (b ∷ bs) lt))
]

pub int_form :
    (n : ℕ) {bs : Bytes}
    → (do
      head ← to_bytes_big 1 (byte_length n + 0x80)
      digits ← to_bytes_big (byte_length n) n
      ok (head ++ digits))
      ≡ ok bs
    → bs ≡ (byte_length n + 0x80) ∷ reverse (to_little (byte_length n) n)
int_form n h =
    let (head, e1, h1) = >>=-eq-ok (to_bytes_big 1 (byte_length n + 0x80)) _ h in
    let (digits, e2, h2) = >>=-eq-ok (to_bytes_big (byte_length n) n) _ h1 in
    let (lt, e3) = one_byte (byte_length n + 0x80) e1 in
    let (lt', e4) = to_bytes_big-eq-ok (byte_length n) n e2 in cc

pub unpack-pack_int :
    (n : ℤ) {bs : Bytes} (f : ℕ) (rest : Bytes)
    → IsSmall n
    → pack_int n ≡ ok bs
    → (0 < length bs) × (unpack (suc f) (bs ++ rest) ≡ ok (decoded_int n, rest))
unfolding pack_int decoded_int
unpack-pack_int (negsuc n) f rest lt h = cc
unpack-pack_int (pos n) f rest lt h = elim (Bool-cases (ltb n 0x80)) [
  | inl small ↦
      rw (small, (one_byte n (rw small at h)).1) (omega arith, unpack-low f n rest (ground arith))
  | inr large ↦
      let digits : Bytes = reverse (to_little (byte_length n) n) in
      let len : length digits ≡ byte_length n = length-reverse-to_little (byte_length n) n in
      rw
        (
          large,
          int_form n (rw large at h),
          unpack-short f (byte_length n) (digits ++ rest) (byte_length_pos n (ground arith))
              (byte_length-le n 55 lt),
        )
        (
          omega arith,
          simp (take_at (byte_length n) digits rest len, drop_at (byte_length n) digits rest len),
        )
]

pub unpack-pack_content :
    (res : Bytes) {bs : Bytes} (f : ℕ) (rest : Bytes) {xs : Items}
    → 0 < length res
    → pack_content res ≡ ok bs
    → (length res < length bs)
      × (unpack_items f res ≡ ok xs → unpack (suc f) (bs ++ rest) ≡ ok (list xs, rest))
unfolding pack_content
unpack-pack_content res f rest p h = elim (Bool-cases (leb (length res) 55)) [
  | inl small ↦
      rw
        (
          short_head 0xC0 res (rw small at h),
          unpack-short_list f (length res) (res ++ rest) p (ground arith),
        )
        (omega arith, λ e. simp (take-append_self, drop-append_self, e))
  | inr large ↦
      let (lt, e) = long_form 0xF7 res (rw large at h) in
      rw (e, append_assoc)
        (
          omega (arith, length-append {0} (long_digits res) res),
          unpack-long_list_at f res rest p (omega arith),
        )
]
