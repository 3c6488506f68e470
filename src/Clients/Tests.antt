-- ===== src/Clients/Tests.antt =====
-- Examples for the clients.
use neon_tests.Prelude.{
  ℕ, ◌+◌, ◌<◌, suc, zero, ◌≡◌, refl, [], ◌∷◌, none, some, Bool, true, false, arith,
}
use neon_tests.Prelude.Int.{ℤ, pos, ltb_ℤ}
use neon_tests.Prelude.Text.{Text, codes, starts_with}
use neon_tests.Py.{Result, ok}
use neon_tests.Py.Number.{int}
use neon_tests.Clients.Rpc.{
  many, Body, Response, body_of, send_rpc, finalized_of, wait_finalized_block,
}
use neon_tests.Clients.Rpc.Answers.{IsAnswer, send_rpc-IsAnswer, wait_finalized_block-ends}
use neon_tests.Clients.Polling.{Reply, request_neon}
use neon_tests.Clients.Polling.Bounded.{IsTaken, request_neon-IsTaken}
use neon_tests.Clients.Accounts.{EthAccounts, get_item}
use neon_tests.Clients.Accounts.Grown.{index, account, run, get_item-run}

-- A value of JSON stands for its text.
abbrev code_answer : Response Text
code_answer = record { id = some 7; result = some (codes "0x60"); error = none }

abbrev post : Body Text → Result (Response Text)
post b = ok code_answer

abbrev always : Text → Bool
always t = true

answered :
    send_rpc always post 7 (codes "eth_getCode") (many (codes "0x01" ∷ [])) none ≡ ok code_answer
unfolding send_rpc
answered = refl

send_rpc-IsAnswer_example :
    (post (body_of always (codes "eth_getCode") (many (codes "0x01" ∷ [])) none 7) ≡ ok code_answer)
    × IsAnswer 7 code_answer
send_rpc-IsAnswer_example =
    send_rpc-IsAnswer always post 7 (codes "eth_getCode") (many (codes "0x01" ∷ [])) none
      code_answer answered

-- The numbers of the finalized blocks: 0x1f, and then 0x40.
abbrev finalized : ℕ → Result (Response Text)
finalized zero = ok (record { id = some 1; result = some (codes "0x1f"); error = none })
finalized (suc k) = ok (record { id = some 1; result = some (codes "0x40"); error = none })

finalized-first : finalized_of (finalized 0) ≡ ok (pos 31)
unfolding finalized_of int
finalized-first = refl

finalized-later : finalized_of (finalized 1) ≡ ok (pos 64)
unfolding finalized_of int
finalized-later = refl

wait_finalized_block-ends_example : wait_finalized_block finalized 3 40 ≡ ok 2
wait_finalized_block-ends_example =
    wait_finalized_block-ends finalized 3 40 1 (omega arith)
      (λ k h. before k h, pos 64, finalized-later, refl)
  where
    before :
        (k : ℕ) → k < 1 → (z : ℤ) × (finalized_of (finalized k) ≡ ok z) × (ltb_ℤ z (pos 40) ≡ true)
    before zero h = (pos 31, finalized-first, refl)
    before (suc k) h = absurd (omega arith)

-- The first post is answered that the block hash was not found.
abbrev replies : ℕ → Reply
replies zero = record { text = codes "Blockhash not found"; fine = false }
replies (suc k) = record { text = codes "OK"; fine = true }

requested : request_neon replies (ok tt) (codes "0x01") ≡ ok (replies 1)
unfolding request_neon
requested = refl

request_neon-IsTaken_example :
    (starts_with (codes "0x01") (codes "0x") ≡ true)
    × (n : ℕ) × (replies 1 ≡ replies n)
    × ((replies 1).fine ≡ true)
    × IsTaken replies 0 3 n
request_neon-IsTaken_example =
    request_neon-IsTaken replies (ok tt) (codes "0x01") (replies 1) requested

abbrev no_accounts : EthAccounts ℕ
no_accounts = record { accounts = []; accounts_collector = []; created = 0 }

abbrev two_accounts : EthAccounts ℕ
two_accounts = record { accounts = 10 ∷ 11 ∷ []; accounts_collector = 10 ∷ 11 ∷ []; created = 2 }

abbrev create : ℕ → Result ℕ
create k = ok (10 + k)

second : get_item create 1 no_accounts ≡ (two_accounts, ok 11)
unfolding get_item
second = refl

get_item-run_example :
    get_item create 1 (run create create (index 4 ∷ account 0 ∷ []) two_accounts)
    ≡ (run create create (index 4 ∷ account 0 ∷ []) two_accounts, ok 11)
get_item-run_example =
    get_item-run create create 1 no_accounts two_accounts 11 (index 4 ∷ account 0 ∷ []) second
