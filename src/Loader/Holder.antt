-- ===== src/Loader/Holder.antt =====
-- `create_holder` and `delete_holder` of integration/tests/neon_evm/utils/storage.py, and
-- `make_CreateAccountWithSeed` of utils/instructions.py.
use neon_tests.Prelude.{
  ℕ, zero, suc, ◌*◌, ◌^◌, ◌<◌, ◌≡◌, ◌≢◌, refl, [], ◌∷◌, ◌++◌, List, Option, none, some, arith, Bool,
  true, false, ◌==◌, if◌then◌else◌, length,
}
use neon_tests.Prelude.Text.{Text}
use neon_tests.Py.{Result, ok, err, ◌>>=◌, recursion_error}
use neon_tests.Py.Bytes.{Bytes, to_little}
use neon_tests.Py.Bytes.Laws.{to_bytes_little-ok}
use neon_tests.Py.Unicode.{encode_utf8}
use neon_tests.Instr.Defs.{Instruction, meta, make_create_holder_account}

-- The parameters of the system program's `create_account_with_seed`.
pub record CreateWithSeed (P : Type 0) : Type 0 where
  pub from_pubkey : P
  pub to_pubkey : P
  pub base : P
  pub seed : Text
  pub lamports : ℕ
  pub space : ℕ
  pub owner : P

-- The transaction that creates a holder account.
pub record HolderTrx (P : Type 0) : Type 0 where
  pub create : CreateWithSeed P
  pub holder : Instruction P
  pub signer : P

abbrev pub or_default {ℓ} : {A : Type ℓ} → A → Option A → A
or_default d none = d
or_default d (some a) = a

-- The libraries' digest, the bytes of a key and the key of 32 bytes; the generator of seeds; and the
-- equality of keys.
module _ {P : Type 0} (sha256 : Bytes → Bytes) (key_bytes : P → Bytes)
    (from_bytes : Bytes → P) where
  pub derive : P → Text → P → Result P
  derive base seed program = do
    s ← encode_utf8 seed
    ok (from_bytes (sha256 (key_bytes base ++ (s ++ key_bytes program))))

  pub make_create_account_with_seed : P → P → Text → ℕ → ℕ → P → Result (CreateWithSeed P)
  unfolding derive
  make_create_account_with_seed funding base seed lamports space program = do
    created ← derive base seed program
    ok (record {
      from_pubkey = funding;
      to_pubkey = created;
      base = base;
      seed = seed;
      lamports = lamports;
      space = space;
      owner = program;
    })

  -- The transaction, given the account that is to hold.
  pub holder_trx : P → Text → ℕ → ℕ → P → P → Result (HolderTrx P)
  unfolding make_create_account_with_seed make_create_holder_account
  holder_trx signer seed size fund loader storage = do
    create ← make_create_account_with_seed signer signer seed fund size loader
    s ← encode_utf8 seed
    holder ← make_create_holder_account storage signer s loader
    ok (record { create = create; holder = holder; signer = signer })

  -- The body once the defaults are filled in. The first number is how many calls the recursion limit
  -- of Python still allows. The value is what the call returns, and the transaction that it sends.
  pub create_holder_at :
      ℕ → (P → ℕ) → P → P → Text → ℕ → ℕ → P → Result (Option P × List (HolderTrx P))
  unfolding holder_trx
  create_holder_at zero balance signer loader seed size fund storage = err recursion_error
  create_holder_at (suc limit) balance signer loader seed size fund storage =
      let again = (do
        (result, trxs) ← create_holder_at limit balance signer loader seed size fund storage
        ok (none, trxs)) in
      let create = (do
        trx ← holder_trx signer seed size fund loader storage
        ok (some storage, trx ∷ [])) in
      if balance storage == 0 then create else again

  pub create_holder :
      ℕ
      → (P → ℕ)
      → Text
      → P
      → P
      → Option Text
      → Option ℕ
      → Option ℕ
      → Option P
      → Result (Option P × List (HolderTrx P))
  unfolding derive create_holder_at
  create_holder limit balance random_seed signer loader seed size fund storage = do
    let seed' = or_default random_seed seed
    derived ← derive signer seed' loader
    create_holder_at limit balance signer loader seed' (or_default (128 * 1024) size)
        (or_default (10 ^ 9) fund) (or_default derived storage)

  -- If the seed is valid text and the account derived from it has lamports already, the call runs
  -- into the recursion limit, whatever the limit.
  pub create_holder-funded :
      (limit : ℕ) (balance : P → ℕ) (random_seed : Text) (signer loader : P) (seed : Option Text)
      (size fund : Option ℕ) {s : Bytes}
      → encode_utf8 (or_default random_seed seed) ≡ ok s
      → balance (from_bytes (sha256 (key_bytes signer ++ (s ++ key_bytes loader)))) ≢ 0
      → create_holder limit balance random_seed signer loader seed size fund none
        ≡ err recursion_error
  unfolding create_holder
  create_holder-funded limit balance random_seed signer loader seed size fund {s} e h =
      rw e (never limit)
    where
      never :
          (n : ℕ)
          → create_holder_at n balance signer loader
              (or_default random_seed seed)
              (or_default (128 * 1024) size)
              (or_default (10 ^ 9) fund)
              (from_bytes (sha256 (key_bytes signer ++ (s ++ key_bytes loader))))
            ≡ err recursion_error
      never zero = refl
      never (suc n) = ground (arith, never n)

  -- If the seed is valid text of less than 2 ^ 64 bytes and the account derived from it has no
  -- lamports, the account is created and made a holder in one transaction: the account that is
  -- created is the one that becomes the holder and the one that is returned, the loader owns it,
  -- and the defaults stand in for a missing fund and size.
  pub create_holder-fresh :
      (limit : ℕ) (balance : P → ℕ) (random_seed : Text) (signer loader : P) (seed : Option Text)
      (size fund : Option ℕ) (s : Bytes)
      → encode_utf8 (or_default random_seed seed) ≡ ok s
      → length s < 256 ^ 8
      → balance (from_bytes (sha256 (key_bytes signer ++ (s ++ key_bytes loader)))) ≡ 0
      → (trx : HolderTrx P) × (create_holder
            (suc limit)
            balance
            random_seed
            signer
            loader
            seed
            size
            fund
            none
          ≡ ok (some trx.create.to_pubkey, trx ∷ []))
        × (trx.create.to_pubkey ≡ from_bytes (sha256 (key_bytes signer ++ (s ++ key_bytes loader))))
        × (trx.create.owner ≡ loader)
        × (trx.create.lamports ≡ or_default (10 ^ 9) fund)
        × (trx.create.space ≡ or_default (128 * 1024) size)
        × (trx.holder.accounts ≡ meta trx.create.to_pubkey false true ∷ meta signer true false ∷ [])
  unfolding create_holder
  create_holder-fresh limit balance random_seed signer loader seed size fund s e h b =
      let seed' = or_default random_seed seed in
      let created = from_bytes (sha256 (key_bytes signer ++ (s ++ key_bytes loader))) in
      (
        record {
          create = record {
            from_pubkey = signer;
            to_pubkey = created;
            base = signer;
            seed = seed';
            lamports = or_default (10 ^ 9) fund;
            space = or_default (128 * 1024) size;
            owner = loader;
          };
          holder = record {
            program_id = loader;
            data_bytes = 0x24 ∷ (to_little 8 (length s) ++ s);
            accounts = meta created false true ∷ meta signer true false ∷ [];
          };
          signer = signer;
        },
        rw (e, b, to_bytes_little-ok 8 (length s) h) refl,
        refl,
        refl,
        refl,
        refl,
        refl,
      )

-- `delete_holder`: the receiver signs if it is the signer.
unfoldable pub delete_holder : {P : Type 0} → (P → P → Bool) → P → P → P → P → Instruction P
delete_holder same_pair del_key acc signer loader = record {
  program_id = loader;
  data_bytes = 0x25 ∷ [];
  accounts = meta del_key false true ∷ meta acc (same_pair signer acc) true ∷ [];
}
