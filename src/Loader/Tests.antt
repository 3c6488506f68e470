-- ===== src/Loader/Tests.antt =====
-- The theorems on the loader's client at concrete runs; the keys are numbers.
use neon_tests.Prelude.{
  ℕ, zero, suc, ◌+◌, ◌/◌, ◌<◌, ◌≤◌, ◌≡◌, ◌≢◌, refl, inl, inr, [], ◌∷◌, List, none, some, arith,
  false, length, replicate, map, if◌then◌else◌, ltb, get_elem?, All,
}
use neon_tests.Prelude.Text.{codes, contains}
use neon_tests.Py.{Result, ok, err, recursion_error, timeout_error}
use neon_tests.Py.Bytes.{Bytes, to_bytes_little, from_little}
use neon_tests.Instr.Defs.{make_write_holder, Instruction, Programs, TreasuryPool}
use neon_tests.Instr.Layout.{HolderWrite, read_write, split_at, read_number}
use neon_tests.Py.Unicode.{encode_utf8}
use neon_tests.Loader.Holder.{create_holder, create_holder-funded}
use neon_tests.Loader.Sends.{
  SentTrx, execute_trx_from_account_with_solana_call, IsExecuted,
  execute_from_account_with_call-IsExecuted,
}
use neon_tests.Loader.Writes.{chunk_size, send_writes, write_transaction_to_holder_account}
use neon_tests.Loader.Chunks.{read_writes, Run, write_transaction-Run}
use neon_tests.Loader.Delivery.{apply_writes, In, delivered_writes}
use neon_tests.Loader.Steps.{Receipt, verdict, running, execute_transaction_steps_from_instruction}
use neon_tests.Loader.Iterations.{IsFirst, Stops, datum_of, steps_from_instruction-Stops}

abbrev programs : Programs ℕ
programs = record { system = 1; compute_budget = 2; token = 3; associated_token = 4; rent = 5 }

abbrev treasury : TreasuryPool ℕ
treasury = record { index = 7; account = 13; buffer = 7 ∷ 0 ∷ 0 ∷ 0 ∷ [] }

abbrev digest : Bytes
digest = replicate 32 5

abbrev ones : Bytes
ones = replicate 1000 1

abbrev written : HolderWrite
written = record { hash = digest; offset = 0; payload = 1 ∷ 2 ∷ 3 ∷ [] }

only_write :
    (w : HolderWrite)
    → In (some w) (read_writes {P = ℕ} (send_writes 10 20 11 digest (1 ∷ 2 ∷ 3 ∷ [])).0)
    → In w (written ∷ written ∷ [])
unfolding send_writes make_write_holder to_bytes_little read_write split_at read_number from_little
only_write w (inr x) = elim x [ ]
only_write w (inl e) = inl (some-inj e)
  where
    some-inj : some w ≡ some written → w ≡ written
    some-inj e = cc

-- The one write arrives twice.
delivered_writes_example :
    apply_writes (written ∷ written ∷ []) (λ i. none) 1
    ≡ (if ltb 1 3 then get_elem? (1 ∷ 2 ∷ 3 ∷ []) 1 else none)
unfolding send_writes make_write_holder to_bytes_little read_write split_at read_number from_little
delivered_writes_example =
    delivered_writes {P = ℕ} 10 20 11 digest (1 ∷ 2 ∷ 3 ∷ []) (written ∷ written ∷ []) refl
      (omega arith) sound only_write (λ i. none) 1
  where
    sound :
        (w : HolderWrite)
        → In w (written ∷ written ∷ [])
        → In (some w) (read_writes {P = ℕ} (send_writes 10 20 11 digest (1 ∷ 2 ∷ 3 ∷ [])).0)
    sound w (inl e) = inl (λ i. some (e i))
    sound w (inr (inl e)) = inl (λ i. some (e i))
    sound w (inr (inr x)) = elim x [ ]

-- The network refuses the second write.
abbrev size_or_refused : Instruction ℕ → Result ℕ
size_or_refused i =
    if ltb (length i.data_bytes) 500 then err timeout_error else ok (length i.data_bytes)

abbrev all_fine : ℕ → Result (Unit {0})
all_fine r = ok tt

write_transaction-Run_example :
    (is : List (Instruction ℕ)) × (ws : List HolderWrite) × Run size_or_refused all_fine is
      (write_transaction_to_holder_account 10 20 11 digest size_or_refused all_fine ones).0
      (write_transaction_to_holder_account 10 20 11 digest size_or_refused all_fine ones).1
    × (read_writes is ≡ map some ws)
    × (length ws ≡ (length ones + 919) / 920)
    × All (λ w. (0 < length w.payload) × (length w.payload ≤ chunk_size)) ws
write_transaction-Run_example =
    write_transaction-Run size_or_refused all_fine 10 20 11 digest ones refl (omega arith)

-- The third step ends the execution.
abbrev answer : ℕ → Receipt
answer (suc (suc zero)) = record {
  failed = false;
  log_messages = codes "invoke" ∷ codes "exit_status=0x11" ∷ [];
}
answer _ = record { failed = false; log_messages = codes "invoke" ∷ [] }

answer-IsFirst : IsFirst answer 2
unfolding verdict contains
answer-IsFirst = record { before = before; here = here }
  where
    before : (j : ℕ) → j < 2 → verdict (answer j) ≡ running
    before zero h = refl
    before (suc zero) h = refl
    before (suc (suc j)) h = absurd (omega arith)

    here : verdict (answer 2) ≢ running
    here e = cc

steps_from_instruction-Stops_example : Stops (datum_of 0x34 treasury.buffer (99 ∷ [])) answer 0 2 (
    execute_transaction_steps_from_instruction programs 10 12 20 11 treasury
      (30 ∷ [])
      answer
      5
      (99 ∷ []))
steps_from_instruction-Stops_example =
    steps_from_instruction-Stops programs 10 12 20 11 treasury (30 ∷ []) answer 5 2 (99 ∷ []) refl
      (omega arith) (omega arith) answer-IsFirst

abbrev first_of : Bytes → ℕ
first_of [] = 0
first_of (b ∷ bs) = b

-- The digest is the bytes themselves, and a key has one byte.
create_holder-funded_example :
    create_holder
      (λ bs. bs)
      (λ k. k ∷ [])
      first_of
      50
      (λ k. k)
      (codes "7")
      10
      20
      none
      none
      none
      none
    ≡ err recursion_error
unfolding encode_utf8
create_holder-funded_example =
    create_holder-funded (λ bs. bs) (λ k. k ∷ []) first_of 50 (λ k. k) (codes "7") 10 20 none none
      none refl ten
  where
    ten : ◌≢◌ {A = ℕ} 10 0
    ten e = cc

execute_from_account_with_call-IsExecuted_example :
    (trx : SentTrx ℕ) × (execute_trx_from_account_with_solana_call programs
        (λ k. suc k)
        20
        10
        11
        13
        treasury.buffer
        (30 ∷ [])
        none
        (31 ∷ [])
        1
      ≡ ok trx)
    × IsExecuted programs (λ k. suc k) 20 11 10 13 1 treasury.buffer (30 ∷ []) (31 ∷ []) trx
execute_from_account_with_call-IsExecuted_example =
    execute_from_account_with_call-IsExecuted programs (λ k. suc k) 20 10 11 13 1 treasury.buffer
      (30 ∷ []) (31 ∷ [])
