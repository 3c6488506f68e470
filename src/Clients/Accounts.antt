-- ===== src/Clients/Accounts.antt =====
-- utils/accounts.py: the accounts that the tests share, made when they are first asked for. The client
-- gives account `k` at its creation `k`, which may raise.
pub mod Grown
use neon_tests.Prelude.{
  ℕ, zero, suc, ◌+◌, ◌-◌, [], ◌∷◌, ◌++◌, List, Option, none, some, ltb, if◌then◌else◌, get_elem?,
  length, Bool, true, false,
}
use neon_tests.Py.{Result, ok, err, or_raise, ◌>>=◌, index_error}

pub record EthAccounts (A : Type 0) : Type 0 where
  pub accounts : List A
  pub accounts_collector : List A
  -- the creations of the client so far
  pub created : ℕ

module _ {A : Type 0} (create : ℕ → Result A) where
  -- A creation, and what is done with the account.
  abbrev pub counted : EthAccounts A → EthAccounts A
  counted s = record s { created = s.created + 1 }

  abbrev pub kept : EthAccounts A → A → EthAccounts A
  kept s a = record s {
    accounts = s.accounts ++ a ∷ [];
    accounts_collector = s.accounts_collector ++ a ∷ [];
    created = s.created + 1;
  }

  abbrev pub collected : EthAccounts A → A → EthAccounts A
  collected s a = record s {
    accounts_collector = s.accounts_collector ++ a ∷ [];
    created = s.created + 1;
  }

  -- The loop, with the rounds that are left: an account is appended as soon as it is made.
  abbrev pub fill_or :
      EthAccounts A
      → (EthAccounts A → EthAccounts A × Result (Unit {0}))
      → Result A
      → EthAccounts A × Result (Unit {0})
  fill_or s next (err e) = (counted s, err e)
  fill_or s next (ok a) = next (kept s a)

  unfoldable pub fill : ℕ → EthAccounts A → EthAccounts A × Result (Unit {0})
  fill zero s = (s, ok tt)
  fill (suc n) s = fill_or s (fill n) (create s.created)

  abbrev pub item_of : ℕ → EthAccounts A × Result (Unit {0}) → EthAccounts A × Result A
  item_of i (s, err e) = (s, err e)
  item_of i (s, ok u) = (s, or_raise (get_elem? s.accounts i) index_error)

  -- `__getitem__`, for an index that is not negative.
  unfoldable pub get_item : ℕ → EthAccounts A → EthAccounts A × Result A
  unfolding fill
  get_item i s = item_of i (fill (i + 1 - length s.accounts) s)

  abbrev pub create_or : EthAccounts A → Result A → EthAccounts A × Result A
  create_or s (err e) = (counted s, err e)
  create_or s (ok a) = (collected s a, ok a)

  -- `create_account`; the client is asked for an account with a balance if that is positive, and for
  -- one without otherwise.
  pub create_account :
      (without_balance : ℕ → Result A) → ℕ → EthAccounts A → EthAccounts A × Result A
  create_account without_balance balance s =
      create_or s (if ltb 0 balance then create s.created else without_balance s.created)
