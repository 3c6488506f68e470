-- ===== src/Rlp/Total.antt =====
-- `unpack` ends on every input, and leaves less than it was given.
use neon_tests.Prelude.{
  ℕ, zero, suc, ◌+◌, ◌-◌, ◌*◌, ◌<◌, ◌≢◌, [], ◌∷◌, arith, leb, ◌==◌, Bool, true, false,
  if◌then◌else◌, length, take, drop, length-take, length-drop,
}
use neon_tests.Py.{Result, ok, err, ◌>>=◌, out_of_fuel}
use neon_tests.Py.Bytes.{Bytes, from_bytes_big}
use neon_tests.Rlp.{Item, Items, cons, list, unpack, unpack_items, unpack_data}

-- A call on `n` bytes did not run out of fuel, and if it returned, fewer than `n` bytes are left.
abbrev pub Shrinks : ℕ → Result (Item × Bytes) → Type 0
Shrinks n (ok (x, rest)) = length rest < n
Shrinks n (err e) = e ≢ out_of_fuel

abbrev pub Ends : Result Items → Type 0
Ends (ok xs) = Unit
Ends (err e) = e ≢ out_of_fuel

Shrinks-if :
    (n : ℕ) (b : Bool) (x y : Result (Item × Bytes))
    → Shrinks n x
    → Shrinks n y
    → Shrinks n (if b then x else y)
Shrinks-if n true x y hx hy = hx
Shrinks-if n false x y hx hy = hy

Shrinks-list :
    (n : ℕ) (r : Result Items) (rest : Bytes)
    → Ends r
    → length rest < n
    → Shrinks n (do lst ← r; ok (list lst, rest))
Shrinks-list n (ok xs) rest h l = l
Shrinks-list n (err e) rest h l = h

Ends-bind :
    (n : ℕ) (r : Result (Item × Bytes)) (k : Item × Bytes → Result Items)
    → Shrinks n r
    → ((x : Item) (rest : Bytes) → length rest < n → Ends (k (x, rest)))
    → Ends (r >>= k)
Ends-bind n (ok (x, rest)) k h hk = hk x rest h
Ends-bind n (err e) k h hk = h

Ends-cons : (x : Item) (r : Result Items) → Ends r → Ends (do lst ← r; ok (cons x lst))
Ends-cons x (ok xs) h = tt
Ends-cons x (err e) h = h

drop-lt : (k : ℕ) (xs : Bytes) → length (drop k xs) < suc (length xs)
drop-lt k xs = omega (arith, length-drop {0} k xs)

drop-drop-lt : (k j : ℕ) (xs : Bytes) → length (drop j (drop k xs)) < suc (length xs)
drop-drop-lt k j xs = omega (arith, length-drop {0} k xs, length-drop {0} j (drop k xs))

mutual
  unfolding unpack

  unpack-Shrinks :
      (f : ℕ) (content : Bytes)
      → 2 * length content < f
      → Shrinks (length content) (unpack f content)
  unpack-Shrinks zero content h = absurd (omega arith)
  unpack-Shrinks (suc f) [] h = cc
  unpack-Shrinks (suc f) (ch ∷ rest) h =
      let n = suc (length rest) in
      let size = ch - 0xB7 in
      let l = from_bytes_big (take size rest) in
      let list_size = ch - 0xF7 in
      let list_l = from_bytes_big (take list_size rest) in
      Shrinks-if n (leb ch 0x7F) _ _ (omega arith) (
        Shrinks-if n (ch == 0x80) _ _ (omega arith) (
          Shrinks-if n (leb ch 0xB7) _ _ (drop-lt (ch - 0x80) rest) (
            Shrinks-if n (leb ch 0xBF) _ _ (drop-drop-lt size l rest) (
              Shrinks-if n (ch == 0xC0) _ _ (omega arith) (
                Shrinks-if n (leb ch 0xF7) _ _
                  (Shrinks-list n _ (drop (ch - 0xC0) rest)
                    (unpack_items-Ends f (take (ch - 0xC0) rest)
                      (omega (arith, length-take {0} (ch - 0xC0) rest)))
                    (drop-lt (ch - 0xC0) rest))
                  (Shrinks-list n _ (drop list_l (drop list_size rest))
                    (unpack_items-Ends f (take list_l (drop list_size rest)) (
                      omega (
                        arith,
                        length-take {0} list_l (drop list_size rest),
                        length-drop {0} list_size rest,
                      )))
                    (drop-drop-lt list_size list_l rest)))))))

  unpack_items-Ends : (f : ℕ) (sub : Bytes) → suc (2 * length sub) < f → Ends (unpack_items f sub)
  unpack_items-Ends zero sub h = absurd (omega arith)
  unpack_items-Ends (suc f) [] h = tt
  unpack_items-Ends (suc f) (b ∷ bs) h =
      Ends-bind (suc (length bs)) _ _ (unpack-Shrinks f (b ∷ bs) (omega arith))
        λ x rest l. Ends-cons x _ (unpack_items-Ends f rest (omega arith))

-- On every input the decoder returns or raises within its fuel; if it returns, what it leaves is
-- shorter than the input.
pub unpack_data-Shrinks : (content : Bytes) → Shrinks (length content) (unpack_data content)
unfolding unpack_data
unpack_data-Shrinks content = unpack-Shrinks (2 * length content + 1) content (omega arith)
