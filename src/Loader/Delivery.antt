-- ===== src/Loader/Delivery.antt =====
-- What the writes leave in a holder account. The client does not wait for one write before it sends
-- the next, so they may arrive in any order, and a write may arrive twice.
use neon_tests.Prelude.{
  ℕ, zero, suc, ◌+◌, ◌-◌, ◌^◌, ◌<◌, ◌≤◌, ◌≡◌, refl, sym, ap, ◌∙◌, subst, ◌⊎◌, inl, inr, ◌&&◌, [],
  ◌∷◌, List, Option, some, map, arith, length, take, drop, Bool, true, ltb, leb, if◌then◌else◌,
  get_elem?, get_elem?-take, get_elem?-drop, drop-length-take, drop-drop, length-take, length-drop,
  All, Bool-cases, ltb→le, le→leb,
}
use neon_tests.Py.Bytes.{Bytes}
use neon_tests.Instr.Layout.{HolderWrite}
use neon_tests.Loader.Writes.{chunk_size, send_writes}
use neon_tests.Loader.Chunks.{chunks, read_writes, send_writes-Wrote}

-- The account's bytes by position.
abbrev pub Buffer : Type 0
Buffer = ℕ → Option ℕ

pub covers : HolderWrite → ℕ → Bool
covers w i = leb w.offset i && ltb i (w.offset + length w.payload)

pub apply_write : HolderWrite → Buffer → Buffer
apply_write w buf i = if covers w i then get_elem? w.payload (i - w.offset) else buf i

pub apply_writes : List HolderWrite → Buffer → Buffer
apply_writes [] buf = buf
apply_writes (w ∷ ws) buf = apply_writes ws (apply_write w buf)

-- Membership by recursion, which keeps the place.
abbrev pub In : {A : Type 0} → A → List A → Type 0
In a [] = ⊥
In a (x ∷ xs) = (a ≡ x) ⊎ In a xs

-- A write that puts bytes of the transaction where they belong.
pub record Agrees (raw : Bytes) (w : HolderWrite) : Type 0 where
  pub inside : w.offset + length w.payload ≤ length raw
  pub same : (j : ℕ) → j < length w.payload → get_elem? w.payload j ≡ get_elem? raw (w.offset + j)

chunks-Agrees :
    (raw : Bytes) (f : ℕ) (hash : Bytes) (offset : ℕ) (rest : Bytes)
    → rest ≡ drop offset raw
    → offset + length rest ≡ length raw
    → All (Agrees raw) (chunks f hash offset rest)
unfolding chunks
chunks-Agrees raw zero hash offset rest e l = tt
chunks-Agrees raw (suc f) hash offset [] e l = tt
chunks-Agrees raw (suc f) hash offset (b ∷ bs) e l =
    let part = take chunk_size (b ∷ bs) in
    (
      record {
        inside = omega (arith, length-take {0} chunk_size (b ∷ bs));
        same = λ j h.
            get_elem?-take chunk_size j (b ∷ bs)
              (omega (arith, length-take {0} chunk_size (b ∷ bs)))
            ∙ rw e (get_elem?-drop offset j raw);
      },
      chunks-Agrees raw f hash (offset + length part) (drop chunk_size (b ∷ bs))
          (sym (drop-length-take chunk_size (b ∷ bs))
            ∙ ap (drop (length part)) e
            ∙ drop-drop offset (length part) raw)
          (omega (arith, length-take {0} chunk_size (b ∷ bs), length-drop {0} chunk_size (b ∷ bs))),
    )

-- Every position is covered by a chunk.
chunks-cover :
    (f : ℕ) (hash : Bytes) (offset : ℕ) (rest : Bytes) (i : ℕ)
    → length rest ≤ f
    → offset ≤ i
    → i < offset + length rest
    → (w : HolderWrite) × In w (chunks f hash offset rest) × (covers w i ≡ true)
unfolding chunks covers
chunks-cover zero hash offset rest i h l u = absurd (omega arith)
chunks-cover (suc f) hash offset [] i h l u = absurd (omega arith)
chunks-cover (suc f) hash offset (b ∷ bs) i h l u =
    let part = take chunk_size (b ∷ bs) in
    let first : HolderWrite = record { hash = hash; offset = offset; payload = part } in
    elim (Bool-cases (ltb i (offset + length part))) [
      | inl here ↦ (first, inl refl, rw (le→leb offset i l, here))
      | inr later ↦
          let (w, m, c) =
            chunks-cover f hash (offset + length part) (drop chunk_size (b ∷ bs)) i
              (omega (arith, length-drop {0} chunk_size (b ∷ bs)))
              (ltb→le i (offset + length part) later)
              (omega (
                arith,
                length-take {0} chunk_size (b ∷ bs),
                length-drop {0} chunk_size (b ∷ bs),
              )) in
          (w, inr m, c)
    ]

In-All : {A : Type 0} (P : A → Type 0) (xs : List A) (a : A) → All P xs → In a xs → P a
In-All P [] a h m = absurd m
In-All P (x ∷ xs) a h (inl e) = subst P (sym e) h.0
In-All P (x ∷ xs) a h (inr m) = In-All P xs a h.1 m

In-map-some : {A : Type 0} (xs : List A) (a : A) → In a xs → In (some a) (map some xs)
In-map-some [] a m = absurd m
In-map-some (x ∷ xs) a (inl e) = inl (ap some e)
In-map-some (x ∷ xs) a (inr m) = inr (In-map-some xs a m)

map-some-In : {A : Type 0} (xs : List A) (a : A) → In (some a) (map some xs) → In a xs
map-some-In [] a m = absurd m
map-some-In (x ∷ xs) a (inl e) = inl (cc)
map-some-In (x ∷ xs) a (inr m) = inr (map-some-In xs a m)

module _ (raw : Bytes) where
  write-sets :
      (w : HolderWrite) (buf : Buffer) (i : ℕ)
      → Agrees raw w
      → covers w i ≡ true
      → apply_write w buf i ≡ get_elem? raw i
  unfolding apply_write covers
  write-sets w buf i a c =
      let e : w.offset + (i - w.offset) ≡ i = ground arith in
      rw c (a.same (i - w.offset) (ground arith) ∙ ap (get_elem? raw) e)

  write-keeps :
      (w : HolderWrite) (buf : Buffer) (i : ℕ)
      → Agrees raw w
      → buf i ≡ get_elem? raw i
      → apply_write w buf i ≡ get_elem? raw i
  write-keeps w buf i a h = elim (Bool-cases (covers w i)) [
    | inl c ↦ write-sets w buf i a c
    | inr c ↦ unfold apply_write in rw c h
  ]

  writes-keep :
      (ws : List HolderWrite) (buf : Buffer) (i : ℕ)
      → ((w : HolderWrite) → In w ws → Agrees raw w)
      → buf i ≡ get_elem? raw i
      → apply_writes ws buf i ≡ get_elem? raw i
  unfolding apply_writes
  writes-keep [] buf i a h = h
  writes-keep (w ∷ ws) buf i a h =
      writes-keep ws (apply_write w buf) i (λ v m. a v (inr m))
        (write-keeps w buf i (a w (inl refl)) h)

  writes-set :
      (ws : List HolderWrite) (buf : Buffer) (i : ℕ) (v : HolderWrite)
      → ((w : HolderWrite) → In w ws → Agrees raw w)
      → In v ws
      → covers v i ≡ true
      → apply_writes ws buf i ≡ get_elem? raw i
  unfolding apply_writes
  writes-set [] buf i v a m c = absurd m
  writes-set (w ∷ ws) buf i v a (inl e) c =
      writes-keep ws (apply_write w buf) i (λ u m. a u (inr m))
        (write-sets w buf i (a w (inl refl)) (rw e at c))
  writes-set (w ∷ ws) buf i v a (inr m) c =
      writes-set ws (apply_write w buf) i v (λ u n. a u (inr n)) m c

  write-outside :
      (w : HolderWrite) (buf : Buffer) (i : ℕ)
      → Agrees raw w
      → length raw ≤ i
      → apply_write w buf i ≡ buf i
  unfolding apply_write covers
  write-outside w buf i a h = ground (arith, a.inside)

  writes-outside :
      (ws : List HolderWrite) (buf : Buffer) (i : ℕ)
      → ((w : HolderWrite) → In w ws → Agrees raw w)
      → length raw ≤ i
      → apply_writes ws buf i ≡ buf i
  unfolding apply_writes
  writes-outside [] buf i a h = refl
  writes-outside (w ∷ ws) buf i a h =
      writes-outside ws (apply_write w buf) i (λ v m. a v (inr m)) h
      ∙ write-outside w buf i (a w (inl refl)) h

-- With a hash of 32 bytes and a transaction below 2 ^ 64 bytes, whatever the order and however
-- often the writes that were sent arrive, if each arrives and nothing else does, the holder account
-- then holds the transaction from position 0 on, and is unchanged behind it.
pub delivered_writes :
    {P : Type 0} (operator loader holder : P) (hash raw : Bytes) (delivered : List HolderWrite)
    → length hash ≡ 32
    → length raw < 256 ^ 8
    → ((w : HolderWrite)
        → In w delivered
        → In (some w) (read_writes (send_writes operator loader holder hash raw).0))
    → ((w : HolderWrite)
        → In (some w) (read_writes (send_writes operator loader holder hash raw).0)
        → In w delivered)
    → (buf : Buffer) (i : ℕ)
    → apply_writes delivered buf i ≡ (if ltb i (length raw) then get_elem? raw i else buf i)
delivered_writes operator loader holder hash raw delivered h32 small sound complete buf i =
    let wrote = send_writes-Wrote operator loader holder hash h32 raw small in
    let ws = chunks (length raw) hash 0 raw in
    let agree = chunks-Agrees raw (length raw) hash 0 raw refl (omega arith) in
    let agrees : (w : HolderWrite) → In w delivered → Agrees raw w = λ w m.
      In-All (Agrees raw) ws w agree
        (map-some-In ws w (subst (In (some w)) wrote.writes (sound w m))) in
    elim (Bool-cases (ltb i (length raw))) [
      | inl inside ↦
          let (v, m, c) =
            chunks-cover (length raw) hash 0 raw i (omega arith) (omega arith) (ground arith) in
          rw inside (
            writes-set raw delivered buf i v agrees
              (complete v (subst (In (some v)) (sym wrote.writes) (In-map-some ws v m))) c)
      | inr outside ↦ rw outside (writes-outside raw delivered buf i agrees (ground arith))
    ]
