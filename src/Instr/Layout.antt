-- ===== src/Instr/Layout.antt =====
-- How the EVM program reads the data of an instruction: the tag, then fields of fixed widths.
use neon_tests.Prelude.{
  ℕ, ◌^◌, ◌<◌, ◌≡◌, refl, ap, [], ◌∷◌, ◌++◌, List, true, false, Option, none, some, arith, length,
  take, drop, take-append_self, drop-append_self, ltb, lt→ltb, if◌then◌else◌, append-nil,
}
use neon_tests.Py.{ok}
use neon_tests.Py.Bytes.{Bytes, to_little, from_little}
use neon_tests.Py.Bytes.Laws.{to_bytes_little-ok, from_little-to_little, length-to_little}
use neon_tests.Instr.Defs.{
  Instruction, TreasuryPool, byte_of, meta, make_write_holder, execution_metas, additional_metas,
  make_execute_trx_from_account_data_iterative_or_continue,
  make_partial_call_or_continue_from_raw_ethereum_tx,
}

-- The first `n` bytes, and the rest, if there are so many.
unfoldable pub split_at : ℕ → Bytes → Bytes × Bytes
split_at n bs = (take n bs, drop n bs)

pub split_at-append : (n : ℕ) (xs ys : Bytes) → length xs ≡ n → split_at n (xs ++ ys) ≡ (xs, ys)
unfolding split_at
split_at-append n xs ys h = rw (← h) (λ i. (take-append_self xs ys i, drop-append_self xs ys i))

-- A number of `n` bytes, lowest first, and what stands behind it.
unfoldable pub read_number : ℕ → Bytes → ℕ × Bytes
read_number n bs = (from_little (split_at n bs).0, (split_at n bs).1)

pub read_number-append :
    (n v : ℕ) (rest : Bytes) → v < 256 ^ n → read_number n (to_little n v ++ rest) ≡ (v, rest)
unfolding read_number
read_number-append n v rest h =
    rw (split_at-append n (to_little n v) rest (length-to_little n v))
      (λ i. (from_little-to_little n v h i, rest))

to_little_one : (v : ℕ) → v < 256 → to_little 1 v ≡ v ∷ []
unfolding to_little
to_little_one v h = ap (λ (n : ℕ). n ∷ []) (omega arith)

-- A write to a holder account: the hash of the transaction, the offset and the bytes.
pub record HolderWrite : Type 0 where
  pub hash : Bytes
  pub offset : ℕ
  pub payload : Bytes

unfoldable pub read_write : Bytes → Option HolderWrite
read_write [] = none
read_write (tag ∷ bs) =
    let (hash, rest) = split_at 32 bs in
    let (offset, payload) = read_number 8 rest in
    if ltb tag 0x26
    then none
    else if ltb 0x26 tag
    then none
    else some (record { hash = hash; offset = offset; payload = payload })

-- A step of an iterative execution: tag, treasury index, number of steps, number of the iteration.
pub record StepData : Type 0 where
  pub tag : ℕ
  pub buffer : Bytes
  pub steps : ℕ
  pub index : ℕ
  pub message : Bytes

pub read_step : Bytes → Option StepData
read_step [] = none
read_step (tag ∷ bs) =
    let (buffer, rest) = split_at 4 bs in
    let (steps, rest') = read_number 4 rest in
    let (index, message) = read_number 4 rest' in
    some (record { tag = tag; buffer = buffer; steps = steps; index = index; message = message })

module _ {P : Type 0} (operator loader holder : P) (hash : Bytes) (offset : ℕ)
    (payload : Bytes) where
  -- With a hash of 32 bytes and an offset of 64 bits, the instruction is built, of its two accounts
  -- the holder is written and the operator signs, and its data reads back as the write.
  pub make_write_holder-read :
      length hash ≡ 32
      → offset < 256 ^ 8
      → (i : Instruction P) × (make_write_holder operator loader holder hash offset payload ≡ ok i)
        × (i.accounts ≡ meta holder false true ∷ meta operator true false ∷ [])
        × (read_write i.data_bytes
            ≡ some (record { hash = hash; offset = offset; payload = payload }))
  unfolding make_write_holder read_write
  make_write_holder-read hh ho = (
    record {
      program_id = loader;
      data_bytes = 0x26 ∷ (hash ++ (to_little 8 offset ++ payload));
      accounts = meta holder false true ∷ meta operator true false ∷ [];
    },
    rw (to_bytes_little-ok 8 offset ho),
    refl,
    rw (
      split_at-append 32 hash (to_little 8 offset ++ payload) hh,
      read_number-append 8 offset payload ho,
    ),
  )

module _ {P : Type 0} (operator balance loader holder system : P) (treasury : TreasuryPool P)
    (extra : List P) where
  -- The data of a step reads back as the tag, the treasury index, the step count and the iteration.
  pub step_from_account-read :
      (index steps tag : ℕ)
      → length treasury.buffer ≡ 4
      → tag < 256
      → steps < 256 ^ 4
      → index < 256 ^ 4
      → (i : Instruction P) × (make_execute_trx_from_account_data_iterative_or_continue index steps
            operator balance loader holder treasury extra system tag
          ≡ ok i)
        × (read_step i.data_bytes
            ≡ some (record {
              tag = tag;
              buffer = treasury.buffer;
              steps = steps;
              index = index;
              message = [];
            }))
  unfolding make_execute_trx_from_account_data_iterative_or_continue read_step
  step_from_account-read index steps tag hb ht hs hi = (
    record {
      program_id = loader;
      data_bytes = tag ∷ (treasury.buffer ++ (to_little 4 steps ++ (to_little 4 index ++ [])));
      accounts =
          execution_metas holder operator treasury.account balance system ++ additional_metas extra;
    },
    rw (
      to_bytes_little-ok 1 tag ht,
      to_bytes_little-ok 4 steps hs,
      to_bytes_little-ok 4 index hi,
      to_little_one tag ht,
      append-nil,
    ),
    rw (
      split_at-append 4 treasury.buffer (to_little 4 steps ++ (to_little 4 index ++ [])) hb,
      read_number-append 4 steps (to_little 4 index ++ []) hs,
      read_number-append 4 index [] hi,
    ),
  )

  -- With a treasury index of 4 bytes and a tag, a step count and an iteration that fit their
  -- widths, a step that carries a transaction is built, and its data reads back as all of these and
  -- the transaction.
  pub step_from_instruction-read :
      (index steps tag : ℕ) (message : Bytes)
      → length treasury.buffer ≡ 4
      → tag < 256
      → steps < 256 ^ 4
      → index < 256 ^ 4
      → (i : Instruction P) × (make_partial_call_or_continue_from_raw_ethereum_tx index steps
            message operator balance loader holder treasury extra system tag
          ≡ ok i)
        × (read_step i.data_bytes
            ≡ some (record {
              tag = tag;
              buffer = treasury.buffer;
              steps = steps;
              index = index;
              message = message;
            }))
  unfolding make_partial_call_or_continue_from_raw_ethereum_tx read_step byte_of
  step_from_instruction-read index steps tag message hb ht hs hi = (
    record {
      program_id = loader;
      data_bytes = tag ∷ (treasury.buffer ++ (to_little 4 steps ++ (to_little 4 index ++ message)));
      accounts =
          execution_metas holder operator treasury.account balance system ++ additional_metas extra;
    },
    rw (lt→ltb tag 256 ht, to_bytes_little-ok 4 steps hs, to_bytes_little-ok 4 index hi),
    rw (
      split_at-append 4 treasury.buffer (to_little 4 steps ++ (to_little 4 index ++ message)) hb,
      read_number-append 4 steps (to_little 4 index ++ message) hs,
      read_number-append 4 index message hi,
    ),
  )
