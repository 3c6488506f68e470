-- ===== src/Rlp/RoundTrip.antt =====
-- What `pack` wrote, `unpack` reads back.
use neon_tests.Prelude.{
  ℕ, zero, suc, ◌+◌, ◌*◌, ◌^◌, ◌<◌, ◌≤◌, ◌≡◌, refl, subst, ◌∙◌, [], ◌∷◌, ◌++◌, arith, length,
  length-append,
}
use neon_tests.Prelude.Int.{ℤ}
use neon_tests.Py.{Result, ok, err, ◌>>=◌, >>=-eq-ok}
use neon_tests.Py.Bytes.{Bytes, to_bytes_big}
use neon_tests.Py.Unicode.{encode_utf8}
use neon_tests.Rlp.{
  Item, Items, nothing, str, bytes, int, list, tuple, other, nil, cons, pack_bytes, pack_int,
  pack_content, pack, pack_items, unpack, unpack_items, unpack_data,
}
use neon_tests.Rlp.Decoded.{
  decoded_bytes, decoded_text, decoded_int, decoded, decoded_items, IsText, IsSmall, Fits,
  FitsItems,
}
use neon_tests.Rlp.Headers.{one_byte, unpack-pack_bytes, unpack-pack_int, unpack-pack_content}

-- A byte string that is not empty starts a round of the loop.
unpack_items-step :
    (f : ℕ) (x y : Bytes) {i : Item}
    → 0 < length x
    → unpack f (x ++ y) ≡ ok (i, y)
    → unpack_items (suc f) (x ++ y) ≡ (do lst ← unpack_items f y; ok (cons i lst))
unfolding unpack
unpack_items-step f [] y p e = absurd (omega arith)
unpack_items-step f (b ∷ bs) y p e = rw e

-- What `pack` returned for a value, read by any call with two units of fuel for each byte.
abbrev Reads : Item → Bytes → Type 0
Reads x bs =
    (0 < length bs)
    × ((f : ℕ) (rest : Bytes)
        → 2 * length bs ≤ suc f
        → unpack (suc f) (bs ++ rest) ≡ ok (decoded x, rest))

abbrev ReadsItems : Items → Bytes → Type 0
ReadsItems xs bs = (f : ℕ) → 2 * length bs < f → unpack_items f bs ≡ ok (decoded_items xs)

cons_form :
    (x : Item) (xs : Items) {bs : Bytes}
    → (do b ← pack x; bs ← pack_items xs; ok (b ++ bs)) ≡ ok bs
    → (b c : Bytes) × (pack x ≡ ok b) × (pack_items xs ≡ ok c) × (bs ≡ b ++ c)
cons_form x xs h =
    let (b, e1, h1) = >>=-eq-ok (pack x) _ h in
    let (c, e2, h2) = >>=-eq-ok (pack_items xs) _ h1 in (b, c, e1, e2, cc)

list_form :
    (x : Item) (xs : Items) {bs : Bytes}
    → (do b ← pack x; bs ← pack_items xs; pack_content (b ++ bs)) ≡ ok bs
    → (b c : Bytes) × (pack x ≡ ok b) × (pack_items xs ≡ ok c) × (pack_content (b ++ c) ≡ ok bs)
list_form x xs h =
    let (b, e1, h1) = >>=-eq-ok (pack x) _ h in
    let (c, e2, h2) = >>=-eq-ok (pack_items xs) _ h1 in (b, c, e1, e2, h2)

ReadsItems-cons :
    (x : Item) (xs : Items) (b c : Bytes)
    → Reads x b
    → ReadsItems xs c
    → ReadsItems (cons x xs) (b ++ c)
unfolding decoded
ReadsItems-cons x xs b c rx rs zero h = absurd (omega arith)
ReadsItems-cons x xs b c rx rs (suc zero) h = absurd (omega (arith, rx.0, length-append {0} b c))
ReadsItems-cons x xs b c rx rs (suc (suc f)) h =
    unpack_items-step (suc f) b c rx.0 (rx.1 f c (omega (arith, length-append {0} b c)))
    ∙ rw (rs (suc f) (omega (arith, rx.0, length-append {0} b c)))

Reads-content :
    (x : Item) (xs : Items) (b c : Bytes) {bs : Bytes}
    → Reads x b
    → ReadsItems xs c
    → pack_content (b ++ c) ≡ ok bs
    → Reads (list (cons x xs)) bs
unfolding decoded
Reads-content x xs b c rx rs h =
    let p : 0 < length (b ++ c) = omega (arith, rx.0, length-append {0} b c) in
    (
      omega (arith, (unpack-pack_content (b ++ c) 0 [] {xs = nil} p h).0),
      λ f rest l.
          let (lt, read) = unpack-pack_content (b ++ c) f rest p h in
          read (ReadsItems-cons x xs b c rx rs f (omega (arith, lt))),
    )

-- The leaves.
abbrev ReadsLeaf : Item → Bytes → Type 0
ReadsLeaf y bs =
    (0 < length bs) × ((f : ℕ) (rest : Bytes) → unpack (suc f) (bs ++ rest) ≡ ok (y, rest))

leaf_head :
    (v : ℕ) (y : Item) {bs : Bytes}
    → to_bytes_big 1 v ≡ ok bs
    → ((f : ℕ) (rest : Bytes) → unpack (suc f) (v ∷ rest) ≡ ok (y, rest))
    → ReadsLeaf y bs
leaf_head v y h k = rw ((one_byte v h).1) (omega arith, k)

leaf_none : {bs : Bytes} → to_bytes_big 1 0x80 ≡ ok bs → ReadsLeaf nothing bs
leaf_none h = leaf_head 0x80 nothing h (λ f rest. unfold unpack in refl)

leaf_empty : {bs : Bytes} → to_bytes_big 1 0xC0 ≡ ok bs → ReadsLeaf (tuple nil) bs
leaf_empty h = leaf_head 0xC0 (tuple nil) h (λ f rest. unfold unpack in refl)

leaf_bytes :
    (content : Bytes) {bs : Bytes}
    → length content < 256 ^ 8
    → pack_bytes content ≡ ok bs
    → ReadsLeaf (decoded_bytes content) bs
leaf_bytes content lt h =
    ((unpack-pack_bytes content 0 [] lt h).0, λ f rest. (unpack-pack_bytes content f rest lt h).1)

leaf_text :
    (r : Result Bytes) {bs : Bytes}
    → IsText r
    → (r >>= pack_bytes) ≡ ok bs
    → ReadsLeaf (decoded_text r) bs
unfolding decoded_text
leaf_text (ok content) lt h = leaf_bytes content lt h
leaf_text (err e) lt h = cc

leaf_int : (n : ℤ) {bs : Bytes} → IsSmall n → pack_int n ≡ ok bs → ReadsLeaf (decoded_int n) bs
leaf_int n lt h = ((unpack-pack_int n 0 [] lt h).0, λ f rest. (unpack-pack_int n f rest lt h).1)

leaf : (x : Item) (bs : Bytes) → ReadsLeaf (decoded x) bs → Reads x bs
leaf x bs r = (r.0, λ f rest l. r.1 f rest)

ReadsItems-nil : ReadsItems nil []
unfolding unpack decoded
ReadsItems-nil zero l = absurd (omega arith)
ReadsItems-nil (suc f) l = refl

mutual
  unfolding pack decoded

  pack-Reads : (x : Item) → Fits x → {bs : Bytes} → pack x ≡ ok bs → Reads x bs
  pack-Reads nothing fit h = leaf nothing _ (leaf_none h)
  pack-Reads (str s) fit h = leaf (str s) _ (leaf_text (encode_utf8 s) fit h)
  pack-Reads (bytes b) fit h = leaf (bytes b) _ (leaf_bytes b fit h)
  pack-Reads (int n) fit h = leaf (int n) _ (leaf_int n fit h)
  pack-Reads (list nil) fit h = leaf (list nil) _ (leaf_empty h)
  pack-Reads (list (cons x xs)) fit h =
      let (b, c, e1, e2, e3) = list_form x xs h in
      Reads-content x xs b c (pack-Reads x fit.0 e1) (pack_items-Reads xs fit.1 e2) e3
  pack-Reads (tuple nil) fit h = leaf (tuple nil) _ (leaf_empty h)
  pack-Reads (tuple (cons x xs)) fit h =
      let (b, c, e1, e2, e3) = list_form x xs h in
      Reads-content x xs b c (pack-Reads x fit.0 e1) (pack_items-Reads xs fit.1 e2) e3
  pack-Reads other fit h = cc

  pack_items-Reads :
      (xs : Items) → FitsItems xs → {bs : Bytes} → pack_items xs ≡ ok bs → ReadsItems xs bs
  pack_items-Reads nil fit h = subst (ReadsItems nil) (cc) ReadsItems-nil
  pack_items-Reads (cons x xs) fit h =
      let (b, c, e1, e2, e3) = cons_form x xs h in
      rw e3 (ReadsItems-cons x xs b c (pack-Reads x fit.0 e1) (pack_items-Reads xs fit.1 e2))

-- Where `pack` returns for a value whose byte strings are shorter than 2 ^ 64 and whose numbers
-- take at most 55 bytes, `unpack` of the result, followed by anything, returns the decoded value
-- and leaves what follows.
pub unpack_data-pack :
    (x : Item) {bs : Bytes} (rest : Bytes)
    → Fits x
    → pack x ≡ ok bs
    → unpack_data (bs ++ rest) ≡ ok (decoded x, rest)
unfolding unpack_data
unpack_data-pack x {bs} rest fit h =
    let e : 2 * length (bs ++ rest) + 1 ≡ suc (2 * length (bs ++ rest)) = omega arith in
    rw e (
      (pack-Reads x fit h).1 (2 * length (bs ++ rest)) rest
        (omega (arith, length-append {0} bs rest)))
