-- ===== src/Vyper/Highest.antt =====
-- Which releases are chosen.
use neon_tests.Prelude.{
  ℕ, zero, suc, ◌+◌, ◌≤◌, ◌<◌, ◌≡◌, refl, ap, sym, ◌∙◌, [], ◌∷◌, List, Option, some, Option-cases,
  length, All, any, take, length-take, subst, ◌||◌, Bool, true, false, inl, inr, Bool-cases, arith,
}
use neon_tests.Prelude.Int.{ℤ, pos, negsuc, ltb_ℤ}
use neon_tests.Prelude.Text.{Text, text_eq}
use neon_tests.Prelude.Dict.{text_eq_refl}
use neon_tests.Py.{ok, >>=-eq-ok, map_result, ok_injective}
use neon_tests.Results.Order.{keep, sort, text_before}
use neon_tests.Results.PreviousTags.{distinct}
use neon_tests.Vyper.{
  major_of, numbers, less, best, highest_version, is_of, last_three_majors, last_three_versions,
  releases_from, get_installable_vyper_versions, get_three_last_versions,
}

ltb_trans : (x y z : ℤ) → ltb_ℤ x y ≡ true → ltb_ℤ y z ≡ true → ltb_ℤ x z ≡ true
ltb_trans (pos a) (pos b) (pos c) p q = ground arith
ltb_trans (pos a) (pos b) (negsuc c) p q = cc
ltb_trans (pos a) (negsuc b) z p q = cc
ltb_trans (negsuc a) (pos b) (pos c) p q = refl
ltb_trans (negsuc a) (pos b) (negsuc c) p q = cc
ltb_trans (negsuc a) (negsuc b) (pos c) p q = refl
ltb_trans (negsuc a) (negsuc b) (negsuc c) p q = ground arith

ltb_between : (x y z : ℤ) → ltb_ℤ x z ≡ true → ltb_ℤ x y ≡ false → ltb_ℤ y z ≡ true
ltb_between (pos a) (pos b) (pos c) p q = ground arith
ltb_between (pos a) (negsuc b) (pos c) p q = refl
ltb_between (pos a) y (negsuc c) p q = cc
ltb_between (negsuc a) (pos b) z p q = cc
ltb_between (negsuc a) (negsuc b) (pos c) p q = refl
ltb_between (negsuc a) (negsuc b) (negsuc c) p q = ground arith

less_trans : (xs ys zs : List ℤ) → less xs ys ≡ true → less ys zs ≡ true → less xs zs ≡ true
unfolding less
less_trans [] [] zs p q = cc
less_trans xs [] [] p q = cc
less_trans (x ∷ xs) [] zs p q = cc
less_trans [] (y ∷ ys) [] p q = cc
less_trans [] (y ∷ ys) (z ∷ zs) p q = refl
less_trans (x ∷ xs) (y ∷ ys) [] p q = cc
less_trans (x ∷ xs) (y ∷ ys) (z ∷ zs) p q = ground (
  arith,
  less_trans xs ys zs,
  ltb_trans x y z,
  ltb_trans z y x,
  ltb_trans z x y,
  ltb_trans y z x,
  ltb_between x y z,
  ltb_between z y x,
  ltb_between y x z,
  ltb_between z x y,
)

less_between : (xs ys zs : List ℤ) → less xs zs ≡ true → less xs ys ≡ false → less ys zs ≡ true
unfolding less
less_between [] [] zs p q = p
less_between [] (y ∷ ys) zs p q = cc
less_between (x ∷ xs) ys [] p q = cc
less_between (x ∷ xs) [] (z ∷ zs) p q = refl
less_between (x ∷ xs) (y ∷ ys) (z ∷ zs) p q = ground (
  arith,
  less_between xs ys zs,
  ltb_trans x y z,
  ltb_trans z y x,
  ltb_trans z x y,
  ltb_trans y z x,
  ltb_between x y z,
  ltb_between z y x,
  ltb_between y x z,
  ltb_between z x y,
)

ltb_irreflexive : (x : ℤ) → ltb_ℤ x x ≡ false
ltb_irreflexive (pos a) = ground arith
ltb_irreflexive (negsuc a) = ground arith

less_irreflexive : (xs : List ℤ) → less xs xs ≡ false
unfolding less
less_irreflexive [] = refl
less_irreflexive (x ∷ xs) = rw (ltb_irreflexive x) (less_irreflexive xs)

false-true : false ≡ true → ⊥
false-true q = cc

-- A release whose numbers are not larger.
abbrev pub IsLower : List ℤ → Text → Type 0
IsLower k w = (m : List ℤ) × (numbers w ≡ ok m) × (less k m ≡ false)

-- The chosen one of some releases: it is one of them, and none has larger numbers.
pub record IsHighest (ws : List Text) (v : Text) : Type 0 where
  pub rank : List ℤ
  pub ranked : numbers v ≡ ok rank
  pub listed : any (text_eq v) ws ≡ true
  pub highest : All (IsLower rank) ws

IsLower-less : (k m : List ℤ) (w : Text) → less k m ≡ false → IsLower m w → IsLower k w
IsLower-less k m w h (n, e, l) = (
  n,
  e,
  elim (Bool-cases (less k n)) [
    | inl p ↦ absurd (false-true (sym l ∙ less_between k m n p h))
    | inr p ↦ p
  ],
)

less-lower : (r k m : List ℤ) → less k m ≡ true → less r m ≡ false → less r k ≡ false
less-lower r k m p h = elim (Bool-cases (less r k)) [
  | inl q ↦ absurd (false-true (sym h ∙ less_trans r k m q p))
  | inr q ↦ q
]

-- The numbers of a release are the same whenever they are read.
IsLower-numbers : (r k : List ℤ) (w : Text) → numbers w ≡ ok k → IsLower r w → less r k ≡ false
IsLower-numbers r k w e (m, f, l) = ap (less r) (ok_injective (sym e ∙ f)) ∙ l

-- Behind the first release, one that is not larger than the chosen one may be added.
add_second :
    (v w h : Text) (ws : List Text) (s : IsHighest (v ∷ ws) h)
    → IsLower s.rank w
    → IsHighest (v ∷ w ∷ ws) h
add_second v w h ws s l = record {
  rank = s.rank;
  ranked = s.ranked;
  listed = or_second (text_eq h v) (text_eq h w) (any (text_eq h) ws) s.listed;
  highest = (s.highest.0, (l, s.highest.1));
}
  where
    or_second : (a b c : Bool) → (a || c) ≡ true → (a || (b || c)) ≡ true
    or_second a b c p = ground arith

add_first :
    (v h : Text) (ws : List Text) (s : IsHighest ws h) → IsLower s.rank v → IsHighest (v ∷ ws) h
add_first v h ws s l = record {
  rank = s.rank;
  ranked = s.ranked;
  listed = or_first (text_eq h v) (any (text_eq h) ws) s.listed;
  highest = (l, s.highest);
}
  where
    or_first : (a c : Bool) → c ≡ true → (a || c) ≡ true
    or_first a c p = ground arith

best-IsHighest :
    (v : Text) (k : List ℤ) (ws : List Text) (h : Text)
    → numbers v ≡ ok k
    → best v k ws ≡ ok h
    → IsHighest (v ∷ ws) h
unfolding best
best-IsHighest v k [] h e r = subst (IsHighest (v ∷ [])) (ok_injective r) (record {
  rank = k;
  ranked = e;
  listed = rw (text_eq_refl v) refl;
  highest = ((k, e, less_irreflexive k), tt);
})
best-IsHighest v k (w ∷ ws) h e r =
    let (m, f, g) = >>=-eq-ok (numbers w) _ r in
    elim (Bool-cases (less k m)) [
      | inl larger ↦
          let s = best-IsHighest w m ws h f (rw larger at g) in
          add_first v h (w ∷ ws) s
            (k, e, less-lower s.rank k m larger (IsLower-numbers s.rank m w f s.highest.0))
      | inr lower ↦
          let s = best-IsHighest v k ws h e (rw lower at g) in
          add_second v w h ws s
            (IsLower-less s.rank k w (IsLower-numbers s.rank k v e s.highest.0) (m, f, lower))
    ]

highest_version-IsHighest : (ws : List Text) (h : Text) → highest_version ws ≡ ok h → IsHighest ws h
unfolding highest_version
highest_version-IsHighest [] h r = cc
highest_version-IsHighest (v ∷ vs) h r =
    let (k, e, g) = >>=-eq-ok (numbers v) _ r in best-IsHighest v k vs h e g

-- One release for each major.
abbrev pub AreHighest : List Text → List Text → List Text → Type 0
AreHighest versions [] [] = Unit
AreHighest versions [] (v ∷ vs) = ⊥
AreHighest versions (m ∷ ms) [] = ⊥
AreHighest versions (m ∷ ms) (v ∷ vs) =
    IsHighest (keep (is_of m) versions) v × AreHighest versions ms vs

chosen-AreHighest :
    (versions majors chosen : List Text)
    → map_result (λ major. highest_version (keep (is_of major) versions)) majors ≡ ok chosen
    → AreHighest versions majors chosen
chosen-AreHighest versions [] [] r = tt
chosen-AreHighest versions [] (v ∷ vs) r = cc
chosen-AreHighest versions (m ∷ ms) chosen r =
    let (v, e, g) = >>=-eq-ok (highest_version (keep (is_of m) versions)) _ r in
    let (vs, f, q) =
      >>=-eq-ok (map_result (λ major. highest_version (keep (is_of major) versions)) ms) _ g in
    subst (AreHighest versions (m ∷ ms)) (ok_injective q)
      (highest_version-IsHighest (keep (is_of m) versions) v e, chosen-AreHighest versions ms vs f)

length-take_three : (ms : List Text) → length (take 3 ms) ≤ 3
length-take_three ms = omega (arith, length-take 3 ms)

last_three_versions-AreHighest :
    (versions chosen : List Text)
    → last_three_versions versions ≡ ok chosen
    → (majors : List Text) × (last_three_majors versions ≡ ok majors)
      × (length majors ≤ 3)
      × AreHighest versions majors chosen
unfolding last_three_versions last_three_majors
last_three_versions-AreHighest versions chosen r =
    let (majors, e, g) = >>=-eq-ok (last_three_majors versions) _ r in
    let (all, f, q) = >>=-eq-ok (map_result major_of versions) _ e in
    (
      majors,
      e,
      subst (λ ms. length ms ≤ 3) (ok_injective q)
          (length-take_three (sort text_before (distinct all))),
      chosen-AreHighest versions majors chosen g,
    )

-- Of the answers of the index, one of the first five is used.
releases_from-listed :
    (replies : ℕ → Option (List Text)) (left k : ℕ) (names : List Text)
    → releases_from replies left k ≡ ok names
    → (i : ℕ) × (i < k + left) × (replies i ≡ some names)
unfolding releases_from
releases_from-listed replies zero k names r = cc
releases_from-listed replies (suc left) k names r = elim (Option-cases (replies k)) [
  | inl e ↦
      let (i, h, q) = releases_from-listed replies left (suc k) names (rw e at r) in
      (i, omega (arith, h), q)
  | inr (found, e) ↦ (k, omega arith, e ∙ ap some (ok_injective (rw e at r)))
]

-- If the call returns, its versions are at most three, one for each of the chosen majors, among the
-- releases that one of the first five answers of the index lists: a release that starts with `0.` and
-- the major and has no `rc`, and no other such release has larger numbers.
pub get_three_last_versions-AreHighest :
    (before : Text → Text → Bool) (replies : ℕ → Option (List Text)) (chosen : List Text)
    → get_three_last_versions before replies ≡ ok chosen
    → (names : List Text) × (majors : List Text) × (i : ℕ) × (i < 5)
      × (replies i ≡ some names)
      × (last_three_majors (sort before names) ≡ ok majors)
      × (length majors ≤ 3)
      × AreHighest (sort before names) majors chosen
unfolding get_three_last_versions get_installable_vyper_versions
get_three_last_versions-AreHighest before replies chosen r =
    let (versions, e, g) = >>=-eq-ok (get_installable_vyper_versions before replies) _ r in
    let (names, f, q) = >>=-eq-ok (releases_from replies 5 0) _ e in
    let (i, h, p) = releases_from-listed replies 5 0 names f in
    let (majors, m, l, a) =
      last_three_versions-AreHighest (sort before names) chosen
        (ap last_three_versions (ok_injective q) ∙ g) in
    (names, majors, i, h, p, m, l, a)
