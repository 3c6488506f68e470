-- ===== src/Load/Tests.antt =====
-- Examples for the load tests.
use neon_tests.Prelude.{ℕ, ◌-◌, ◌≡◌, refl, [], ◌∷◌, none, some, ◌==◌, Bool}
use neon_tests.Prelude.Text.{codes}
use neon_tests.Py.{ok, err, attribute_error, timeout_error}
use neon_tests.Load.Events.{Outcome, Handler, request_type_of, collect}
use neon_tests.Load.Events.Fires.{Tells, one_fired, collect-fires}
use neon_tests.Load.Tracer.{Stored, transfer, get, get_random_transaction, Chosen}
use neon_tests.Load.Users.{Setting, no_users, test_start, start_all}
use neon_tests.Load.Users.Numbered.{numbered, start_all-numbered, start_all-restarted}
use neon_tests.Load.Dump.{Receipt, dump_history}
use neon_tests.Load.Dump.Filled.{IsFilled, dump_history-chosen}

abbrev idle : Handler ℕ ℕ ℕ
idle = record { buffer = []; fired = [] }

abbrev between : ℕ → ℕ → ℕ
between a b = b - a

-- A response stands for its number; that of 7 has an error.
abbrev is_seven : ℕ → Bool
is_seven n = n == 7

typed : request_type_of (codes "eth_getBalance") ≡ ok (codes "`getBalance`")
unfolding request_type_of
typed = refl

collect-fires_example :
    (o : Outcome ℕ) × Tells between (λ n. n) is_seven (err timeout_error) o
    × (collect between
          (λ n. n)
          is_seven
          (codes "id")
          (codes "eth_getBalance")
          (some (codes "blockHash"))
          (err timeout_error)
          10
          11
          15
          idle
        ≡ one_fired between
            (λ n. n)
            is_seven
            (codes "`getBalance`")
            (codes "[blockHash]")
            11
            15
            o
            (err timeout_error)
            idle)
collect-fires_example =
    collect-fires between (λ n. n) is_seven (codes "id") (codes "eth_getBalance")
      (codes "`getBalance`") (codes "blockHash") (err timeout_error) 10 11 15 idle typed refl refl

abbrev trx : Stored
trx = record {
  block_hash = codes "0xab";
  block_number = codes "0x10";
  contract = none;
  to = codes "0x02";
  additional_info = [];
}

abbrev setting : Setting
setting = record {
  tracing_url = [];
  credentials = (codes "proxy_url", codes "http://proxy") ∷ [];
  dumped = some ((codes "transfer", (codes "0x01", trx ∷ []) ∷ []) ∷ []);
  pool_size = 10;
}

start_all-numbered_example :
    (start_all setting 3 (test_start setting no_users)).1
    ≡ numbered setting (some (codes "http://proxy")) (codes "http://proxy") 3 0
start_all-numbered_example =
    start_all-numbered setting (codes "http://proxy")
      (codes "transfer", (codes "0x01", trx ∷ []) ∷ []) [] no_users 3 refl refl refl

start_all-restarted_example :
    (start_all setting 2
      (test_start setting (start_all setting 2 (test_start setting no_users)).0)).1
    ≡ err attribute_error ∷ err attribute_error ∷ []
start_all-restarted_example =
    start_all-restarted setting (codes "http://proxy")
      (codes "transfer", (codes "0x01", trx ∷ []) ∷ []) [] 1 2 refl refl

abbrev receipt : Receipt
receipt = record {
  sender = codes "0x01";
  to = codes "0x02";
  block_hash = 0xAB ∷ [];
  block_number = 16;
  contract = none;
}

is_transfer : get (codes "eth_getBalance") ≡ ok transfer
unfolding get
is_transfer = refl

dump_history-chosen_example :
    IsFilled (dump_history transfer (some (some receipt, [])) []).0
    × (c : Chosen) × (get_random_transaction
          (dump_history transfer (some (some receipt, [])) []).0
          4
          9
          (codes "eth_getBalance")
        ≡ ok c)
dump_history-chosen_example =
    dump_history-chosen [] transfer receipt [] 4 9 (codes "eth_getBalance") tt is_transfer
