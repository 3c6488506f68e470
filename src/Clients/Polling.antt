-- ===== src/Clients/Polling.antt =====
-- What the clients try again: the posts of `Faucet.request_neon` (utils/faucet.py), the airdrops of
-- `SolanaClient.request_airdrop` (utils/solana_client.py), and the balance of a user of the load tests
-- (loadtesting/proxy/common/base.py). What every call gives is given, and so is how the polling of
-- the library ends.
pub mod Bounded
use neon_tests.Prelude.{
  ℕ, zero, suc, [], ◌∷◌, List, Option, none, some, ltb, leb, if◌then◌else◌, not, Bool, true, false,
}
use neon_tests.Prelude.Text.{Text, codes, contains, starts_with}
use neon_tests.Py.{Error, Result, ok, err, ◌>>=◌, ◌>>◌, guard, assertion_error}

-- A response of the faucet.
pub record Reply : Type 0 where
  pub text : Text
  pub fine : Bool

abbrev pub is_stale : Reply → Bool
is_stale r = contains (codes "Blockhash not found") r.text

-- The response to the post `k`, and as often as is left the next one, while it is a stale one; with
-- the number of that post.
unfoldable pub retry : (replies : ℕ → Reply) → (left : ℕ) → ℕ → ℕ × Reply
unfolding contains
retry replies zero k = (k, replies k)
retry replies (suc left) k =
    let again = retry replies left (suc k) in if is_stale (replies k) then again else (k, replies k)

-- The counter goes from 0 to 3.
unfoldable pub request_neon : (replies : ℕ → Reply) → Result (Unit {0}) → Text → Result Reply
unfolding retry starts_with
request_neon replies funded address = do
  guard (starts_with address (codes "0x")) assertion_error
  let (k, response) = retry replies 3 0
  guard response.fine assertion_error
  funded
  ok response

-- The answer to an airdrop: an error of the node, or a signature.
pub data Airdrop (S : Type 0) : Type 0 where
  internal_error : Airdrop S
  airdropped : S → Airdrop S

abbrev pub attempt_or : {S : Type 0} → Airdrop S → ℕ → Result (ℕ × S) → Result (ℕ × S)
attempt_or internal_error k again = again
attempt_or (airdropped s) k again = ok (k, s)

-- The attempts that are left, from the attempt `k` on: the signature and the number of its attempt.
-- `for … else` raises where none is.
pub attempts : {S : Type 0} → (answers : ℕ → Airdrop S) → (left : ℕ) → ℕ → Result (ℕ × S)
attempts answers zero k = err assertion_error
attempts answers (suc left) k = attempt_or (answers k) k (attempts answers left (suc k))

pub request_airdrop : {S : Type 0} → (answers : ℕ → Airdrop S) → Result (Unit {0}) → Result S
unfolding attempts
request_airdrop answers funded = do (k, s) ← attempts answers 5 0; funded; ok s

-- `check_balance` of a user: the balance after the request is read at most as often as is left.
pub changed : (balances : ℕ → ℕ) → (left : ℕ) → ℕ → (before : ℕ) → Result (Unit {0})
changed balances zero k before = err assertion_error
changed balances (suc left) k before =
    let again = changed balances left (suc k) before in
    if leb (balances k) before then again else ok tt

-- The request is made for a balance below 100.
pub check_balance : (balances : ℕ → ℕ) → (request : Result Reply) → (before : ℕ) → Result (Unit {0})
unfolding changed
check_balance balances request before =
    let funded = request >>= λ r. changed balances 5 0 before in
    if ltb before 100 then funded else ok tt
