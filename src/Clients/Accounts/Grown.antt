-- ===== src/Clients/Accounts/Grown.antt =====
-- The shared accounts as an array that only grows.
use neon_tests.Prelude.{
  ℕ, zero, suc, ◌+◌, ◌-◌, ◌<◌, ◌≡◌, refl, ap, sym, ◌∙◌, [], ◌∷◌, ◌++◌, List, Option, none, some,
  get_elem?, get_elem?-append_left, length, ltb, if◌then◌else◌, append_assoc, append-nil, arith,
}
use neon_tests.Py.{Result, ok, err, or_raise, index_error}
use neon_tests.Clients.Accounts.{
  EthAccounts, kept, fill_or, fill, item_of, get_item, create_or, create_account,
}

module _ {A : Type 0} (create : ℕ → Result A) where
  -- From one state to the next: some accounts are appended.
  abbrev pub IsGrown : EthAccounts A → EthAccounts A → Type 0
  IsGrown s t = (new : List A) × (t.accounts ≡ s.accounts ++ new)

  IsGrown-refl : (s : EthAccounts A) → IsGrown s s
  IsGrown-refl s = ([], sym (append-nil s.accounts))

  IsGrown-kept : (s t : EthAccounts A) (a : A) → IsGrown (kept create s a) t → IsGrown s t
  IsGrown-kept s t a (new, is) = (a ∷ new, is ∙ append_assoc s.accounts (a ∷ []) new)

  IsGrown-trans : (s t u : EthAccounts A) → IsGrown s t → IsGrown t u → IsGrown s u
  IsGrown-trans s t u (new, is) (newer, more) =
      (new ++ newer, more ∙ ap (λ xs. xs ++ newer) is ∙ append_assoc s.accounts new newer)

  fill_or-IsGrown :
      (s : EthAccounts A) (next : EthAccounts A → EthAccounts A × Result (Unit {0})) (r : Result A)
      → ((t : EthAccounts A) → IsGrown t (next t).0)
      → IsGrown s (fill_or create s next r).0
  fill_or-IsGrown s next (err e) grows = IsGrown-refl s
  fill_or-IsGrown s next (ok a) grows =
      IsGrown-kept s (next (kept create s a)).0 a (grows (kept create s a))

  fill-IsGrown : (n : ℕ) (s : EthAccounts A) → IsGrown s (fill create n s).0
  unfolding fill
  fill-IsGrown zero s = IsGrown-refl s
  fill-IsGrown (suc n) s = fill_or-IsGrown s (fill create n) (create s.created) (fill-IsGrown n)

  fill_none : (n : ℕ) (s : EthAccounts A) → n ≡ 0 → fill create n s ≡ (s, ok tt)
  unfolding fill
  fill_none zero s e = refl
  fill_none (suc n) s e = absurd (omega arith)

  get_item-IsGrown : (i : ℕ) (s : EthAccounts A) → IsGrown s (get_item create i s).0
  unfolding get_item
  get_item-IsGrown i s = same (fill create n s) (fill-IsGrown n s)
    where
      n : ℕ
      n = i + 1 - length s.accounts

      same :
          (p : EthAccounts A × Result (Unit {0})) → IsGrown s p.0 → IsGrown s (item_of create i p).0
      same (t, err e) h = h
      same (t, ok u) h = h

  get_elem?-bound : (xs : List A) (i : ℕ) (a : A) → get_elem? xs i ≡ some a → i < length xs
  get_elem?-bound [] i a e = cc
  get_elem?-bound (x ∷ xs) zero a e = omega arith
  get_elem?-bound (x ∷ xs) (suc i) a e = omega (arith, get_elem?-bound xs i a e)

  -- What an index gives stays.
  get_elem?-IsGrown :
      (s t : EthAccounts A) (i : ℕ) (a : A)
      → IsGrown s t
      → get_elem? s.accounts i ≡ some a
      → get_elem? t.accounts i ≡ some a
  get_elem?-IsGrown s t i a (new, is) h =
      ap (λ xs. get_elem? xs i) is
      ∙ get_elem?-append_left s.accounts new i (get_elem?-bound s.accounts i a h)
      ∙ h

  -- An index that is there makes nothing.
  get_item-there :
      (i : ℕ) (s : EthAccounts A) (a : A)
      → get_elem? s.accounts i ≡ some a
      → get_item create i s ≡ (s, ok a)
  unfolding get_item
  get_item-there i s a h =
      let bound = get_elem?-bound s.accounts i a h in
      ap (item_of create i) (fill_none (i + 1 - length s.accounts) s (omega (arith, bound)))
      ∙ (λ k. (s, or_raise (h k) index_error))

  get_item-holds :
      (i : ℕ) (s t : EthAccounts A) (a : A)
      → get_item create i s ≡ (t, ok a)
      → get_elem? t.accounts i ≡ some a
  unfolding get_item
  get_item-holds i s t a h = holds (fill create (i + 1 - length s.accounts) s) h
    where
      found : (x : Option A) → or_raise x index_error ≡ ok a → x ≡ some a
      found (some b) e = cc
      found none e = cc

      holds :
          (p : EthAccounts A × Result (Unit {0}))
          → item_of create i p ≡ (t, ok a)
          → get_elem? t.accounts i ≡ some a
      holds (u, err e) q = clash (ap (λ x. x.1) q)
        where
          clash : err e ≡ ok a → get_elem? t.accounts i ≡ some a
          clash x = cc
      holds (u, ok v) q =
          found (get_elem? t.accounts i)
            (ap (λ x. or_raise (get_elem? x.0.accounts i) index_error) (sym q) ∙ ap (λ x. x.1) q)

-- The calls of the tests: an index, or a new account with a balance.
pub data Call : Type 0 where
  index : ℕ → Call
  account : ℕ → Call

module _ {A : Type 0} (create without_balance : ℕ → Result A) where
  abbrev pub called : Call → EthAccounts A → EthAccounts A
  called (index i) s = (get_item create i s).0
  called (account b) s = (create_account create without_balance b s).0

  abbrev pub run : List Call → EthAccounts A → EthAccounts A
  run [] s = s
  run (c ∷ cs) s = run cs (called c s)

  called-IsGrown : (c : Call) (s : EthAccounts A) → IsGrown create s (called c s)
  unfolding create_account
  called-IsGrown (index i) s = get_item-IsGrown create i s
  called-IsGrown (account b) s =
      new (if ltb 0 b then create s.created else without_balance s.created)
    where
      new : (r : Result A) → IsGrown create s (create_or create s r).0
      new (err e) = IsGrown-refl create s
      new (ok a) = IsGrown-refl create s

  run-IsGrown : (cs : List Call) (s : EthAccounts A) → IsGrown create s (run cs s)
  run-IsGrown [] s = IsGrown-refl create s
  run-IsGrown (c ∷ cs) s =
      IsGrown-trans create s (called c s) (run cs (called c s)) (called-IsGrown c s)
        (run-IsGrown cs (called c s))

  -- Once an index gave an account, it gives the same account after any calls, whatever they create or
  -- fail to create, and makes no account then: the tests see an array that is written once.
  pub get_item-run :
      (i : ℕ) (s t : EthAccounts A) (a : A) (cs : List Call)
      → get_item create i s ≡ (t, ok a)
      → get_item create i (run cs t) ≡ (run cs t, ok a)
  get_item-run i s t a cs h = get_item-there create i (run cs t) a (
      get_elem?-IsGrown create t (run cs t) i a (run-IsGrown cs t)
        (get_item-holds create i s t a h))
