-- ===== src/Clients/Polling/Bounded.antt =====
-- How often the clients try, and which answer they take.
use neon_tests.Prelude.{
  ℕ, zero, suc, ◌+◌, ◌<◌, ◌≤◌, ◌≡◌, refl, ap, subst, sym, ◌∙◌, ◌⊎◌, inl, inr, Bool-cases, Bool,
  true, false, arith,
}
use neon_tests.Prelude.Text.{Text, codes, starts_with}
use neon_tests.Py.{Result, ok, err, guard, assertion_error, >>-eq-ok, ok_injective}
use neon_tests.Clients.Polling.{
  Reply, is_stale, retry, request_neon, Airdrop, internal_error, airdropped, attempts,
}

-- `n` is the first index from `k` on, below `last`, whose reply is not stale, or it is `last`.
abbrev pub IsTaken : (ℕ → Reply) → ℕ → ℕ → ℕ → Type 0
IsTaken replies k last n =
    (k ≤ n)
    × (n ≤ last)
    × ((j : ℕ) → k ≤ j → j < n → is_stale (replies j) ≡ true)
    × ((n ≡ last) ⊎ (is_stale (replies n) ≡ false))

retry-IsTaken :
    (replies : ℕ → Reply) (left k last : ℕ)
    → k + left ≡ last
    → IsTaken replies k last (retry replies left k).0
      × ((retry replies left k).1 ≡ replies (retry replies left k).0)
unfolding retry
retry-IsTaken replies zero k last at =
    ((omega arith, omega arith, λ j a b. absurd (omega arith), inl (omega arith)), refl)
retry-IsTaken replies (suc left) k last at = elim (Bool-cases (is_stale (replies k))) [
  | inl stale ↦ rw stale (again stale (retry-IsTaken replies left (suc k) last (omega arith)))
  | inr fresh ↦
      rw fresh ((omega arith, omega arith, λ j a b. absurd (omega arith), inr fresh), refl)
]
  where
    again :
        is_stale (replies k) ≡ true
        → IsTaken replies (suc k) last (retry replies left (suc k)).0
          × ((retry replies left (suc k)).1 ≡ replies (retry replies left (suc k)).0)
        → IsTaken replies k last (retry replies left (suc k)).0
          × ((retry replies left (suc k)).1 ≡ replies (retry replies left (suc k)).0)
    again stale ((low, high, before, end), is) = (
      (
        omega arith,
        high,
        λ j a b. elim (first j a) [
          | inl here ↦ subst (λ i. is_stale (replies i) ≡ true) here stale
          | inr later ↦ before j later b
        ],
        end,
      ),
      is,
    )
      where
        first : (j : ℕ) → k ≤ j → (k ≡ j) ⊎ (suc k ≤ j)
        first j a = ground arith

-- If the request returns, the address starts with `0x`, at most four posts were made, all but the
-- last were answered that the block hash was not found, and what is returned is the answer to the
-- last, which is no error, and which tells of a block hash that was not found only if four posts
-- were made.
pub request_neon-IsTaken :
    (replies : ℕ → Reply) (funded : Result (Unit {0})) (address : Text) (r : Reply)
    → request_neon replies funded address ≡ ok r
    → (starts_with address (codes "0x") ≡ true)
      × (n : ℕ) × (r ≡ replies n)
      × (r.fine ≡ true)
      × IsTaken replies 0 3 n
unfolding request_neon
request_neon-IsTaken replies funded address r h =
    let (prefix, rest) =
      >>-eq-ok (guard (starts_with address (codes "0x")) assertion_error) _ r h in
    let (fine, more) = >>-eq-ok (guard (retry replies 3 0).1.fine assertion_error) _ r rest in
    let (_, last) = >>-eq-ok funded (ok (retry replies 3 0).1) r more in
    let (taken, is) = retry-IsTaken replies 3 0 3 refl in
    let same : r ≡ (retry replies 3 0).1 = sym (ok_injective last) in
    (
      passed (starts_with address (codes "0x")) prefix,
      (retry replies 3 0).0,
      same ∙ is,
      subst (λ x. x.fine ≡ true) (sym same) (passed ((retry replies 3 0).1.fine) fine),
      taken,
    )
  where
    passed : (b : Bool) → guard b assertion_error ≡ ok tt → b ≡ true
    passed true h = refl
    passed false h = cc

-- The first attempt that is answered with a signature.
abbrev pub IsFirst : {S : Type 0} → (ℕ → Airdrop S) → ℕ → ℕ → S → Type 0
IsFirst answers k n s =
    (k ≤ n) × ((j : ℕ) → k ≤ j → j < n → answers j ≡ internal_error) × (answers n ≡ airdropped s)

-- `attempts` by the answer to its first attempt.
attempts-error :
    {S : Type 0} (answers : ℕ → Airdrop S) (left k : ℕ)
    → answers k ≡ internal_error
    → attempts answers (suc left) k ≡ attempts answers left (suc k)
unfolding attempts
attempts-error answers left k e = rw e refl

attempts-answered :
    {S : Type 0} (answers : ℕ → Airdrop S) (left k : ℕ) (s : S)
    → answers k ≡ airdropped s
    → attempts answers (suc left) k ≡ ok (k, s)
unfolding attempts
attempts-answered answers left k s e = rw e refl

attempts-IsFirst :
    {S : Type 0} (answers : ℕ → Airdrop S) (d left k n : ℕ) (s : S)
    → k + d ≡ n
    → d < left
    → IsFirst answers k n s
    → attempts answers left k ≡ ok (n, s)
attempts-IsFirst answers d zero k n s at enough first = absurd (omega arith)
attempts-IsFirst answers zero (suc left) k n s at enough (low, before, is) =
    let here : k ≡ n = omega arith in
    attempts-answered answers left k s (ap answers here ∙ is) ∙ ap (λ (m : ℕ). ok (m, s)) here
attempts-IsFirst answers (suc d) (suc left) k n s at enough (low, before, is) =
    attempts-error answers left k (before k (omega arith) (omega arith))
    ∙ attempts-IsFirst answers d left (suc k) n s (omega arith) (omega arith)
        (omega arith, λ j a b. before j (omega arith) b, is)

attempts-exhausted :
    {S : Type 0} (answers : ℕ → Airdrop S) (left k : ℕ)
    → ((j : ℕ) → k ≤ j → j < k + left → answers j ≡ internal_error)
    → attempts answers left k ≡ err assertion_error
unfolding attempts
attempts-exhausted answers zero k all_errors = refl
attempts-exhausted answers (suc left) k all_errors =
    attempts-error answers left k (all_errors k (omega arith) (omega arith))
    ∙ attempts-exhausted answers left (suc k) (λ j a b. all_errors j (omega arith) (omega arith))
