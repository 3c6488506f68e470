-- ===== src/Instr/Serialize.antt =====
-- `serialize_instruction` of utils/helpers.py, and a reader of what it writes.
use neon_tests.Prelude.{
  ℕ, zero, suc, ◌^◌, ◌<◌, ◌≡◌, refl, ap, [], ◌∷◌, ◌++◌, List, Bool, true, false, arith, length,
  take, map, append_assoc,
}
use neon_tests.Py.{Result, ok, ◌>>=◌}
use neon_tests.Py.Bytes.{Bytes, to_bytes_little, to_little}
use neon_tests.Py.Bytes.Laws.{to_bytes_little-ok}
use neon_tests.Instr.Defs.{AccountMeta, Instruction}
use neon_tests.Instr.Layout.{split_at, split_at-append, read_number, read_number-append}

-- `flag.to_bytes(1, "little")` of a Boolean.
abbrev pub flag_byte : Bool → ℕ
flag_byte true = 1
flag_byte false = 0

module _ {P : Type 0} (key_bytes : P → Bytes) where
  pub serialize_metas : List (AccountMeta P) → Bytes
  serialize_metas [] = []
  serialize_metas (m ∷ ms) =
      key_bytes m.pubkey ++ flag_byte m.is_signer ∷ flag_byte m.is_writable ∷ serialize_metas ms

  pub serialize_instruction : P → Instruction P → Result Bytes
  unfolding serialize_metas
  serialize_instruction program_id i = do
    count ← to_bytes_little 8 (length i.accounts)
    size ← to_bytes_little 8 (length i.data_bytes)
    ok (key_bytes program_id ++ (count ++ (serialize_metas i.accounts ++ (size ++ i.data_bytes))))

-- An account as the reader sees it.
pub record RawMeta : Type 0 where
  pub pubkey : Bytes
  pub signer : ℕ
  pub writable : ℕ

-- An account takes 34 bytes.
pub read_meta : Bytes → RawMeta × Bytes
read_meta bs =
    let (key, r1) = split_at 32 bs in
    let (s, r2) = read_number 1 r1 in
    let (w, r3) = read_number 1 r2 in (record { pubkey = key; signer = s; writable = w }, r3)

pub read_metas : ℕ → Bytes → List RawMeta × Bytes
read_metas zero bs = ([], bs)
read_metas (suc n) bs =
    let (m, rest) = read_meta bs in let (ms, rest') = read_metas n rest in (m ∷ ms, rest')

pub record RawInstruction : Type 0 where
  pub program : Bytes
  pub accounts : List RawMeta
  pub payload : Bytes

pub read_instruction : Bytes → RawInstruction
read_instruction bs =
    let (program, r1) = split_at 32 bs in
    let (count, r2) = read_number 8 r1 in
    let (metas, r3) = read_metas count r2 in
    let (size, r4) = read_number 8 r3 in
    record { program = program; accounts = metas; payload = take size r4 }

take-length : (xs : Bytes) → take (length xs) xs ≡ xs
take-length [] = refl
take-length (x ∷ xs) = ap (λ t. x ∷ t) (take-length xs)

read_flag : (b : Bool) (rest : Bytes) → read_number 1 (flag_byte b ∷ rest) ≡ (flag_byte b, rest)
unfolding to_little
read_flag true rest = read_number-append 1 1 rest (omega arith)
read_flag false rest = read_number-append 1 0 rest (omega arith)

module _ {P : Type 0} (key_bytes : P → Bytes)
    (keys_of_32 : (p : P) → length (key_bytes p) ≡ 32) where
  abbrev pub raw_meta : AccountMeta P → RawMeta
  raw_meta m = record {
    pubkey = key_bytes m.pubkey;
    signer = flag_byte m.is_signer;
    writable = flag_byte m.is_writable;
  }

  read_meta-serialize :
      (m : AccountMeta P) (rest : Bytes)
      → read_meta (key_bytes m.pubkey ++ flag_byte m.is_signer ∷ flag_byte m.is_writable ∷ rest)
        ≡ (raw_meta m, rest)
  unfolding read_meta
  read_meta-serialize m rest = rw (
    split_at-append 32 (key_bytes m.pubkey) (flag_byte m.is_signer ∷ flag_byte m.is_writable ∷ rest)
        (keys_of_32 m.pubkey),
    read_flag m.is_signer (flag_byte m.is_writable ∷ rest),
    read_flag m.is_writable rest,
  )

  read_metas-serialize :
      (ms : List (AccountMeta P)) (rest : Bytes)
      → read_metas (length ms) (serialize_metas key_bytes ms ++ rest) ≡ (map raw_meta ms, rest)
  unfolding read_metas serialize_metas
  read_metas-serialize [] rest = refl
  read_metas-serialize (m ∷ ms) rest = rw (
    append_assoc,
    read_meta-serialize m (serialize_metas key_bytes ms ++ rest),
    read_metas-serialize ms rest,
  )

  -- Where keys are 32 bytes and the two lengths fit 64 bits, an instruction is written, and a
  -- reader of the format gets the program, every account with its two flags, and the data back.
  pub read_instruction-serialize :
      (program_id : P) (i : Instruction P)
      → length i.accounts < 256 ^ 8
      → length i.data_bytes < 256 ^ 8
      → (bs : Bytes) × (serialize_instruction key_bytes program_id i ≡ ok bs)
        × (read_instruction bs ≡ record {
          program = key_bytes program_id;
          accounts = map raw_meta i.accounts;
          payload = i.data_bytes;
        })
  unfolding serialize_instruction read_instruction
  read_instruction-serialize program_id i ha hd =
      let n = length i.accounts in
      let tail =
        serialize_metas key_bytes i.accounts
        ++ (to_little 8 (length i.data_bytes) ++ i.data_bytes) in
      (
        key_bytes program_id ++ (to_little 8 n ++ tail),
        rw (to_bytes_little-ok 8 n ha, to_bytes_little-ok 8 (length i.data_bytes) hd),
        rw (
          split_at-append 32 (key_bytes program_id) (to_little 8 n ++ tail) (keys_of_32 program_id),
          read_number-append 8 n tail ha,
          read_metas-serialize i.accounts (to_little 8 (length i.data_bytes) ++ i.data_bytes),
          read_number-append 8 (length i.data_bytes) i.data_bytes hd,
          take-length i.data_bytes,
        ),
      )
