-- ===== src/Loader/Deposits/Approved.antt =====
-- What the deposits approve, and what they mint.
use neon_tests.Prelude.{
  ℕ, ◌≡◌, refl, ap, ◌∙◌, subst, [], ◌∷◌, ◌++◌, List, some, length, drop, true, false,
}
use neon_tests.Prelude.Text.{Text, codes}
use neon_tests.Py.{ok, >>=-eq-ok, ok_injective}
use neon_tests.Py.Bytes.{Bytes, to_bytes_little, from_little}
use neon_tests.Py.Bytes.Laws.{to_bytes_little-eq-ok, length-to_little, from_little-to_little}
use neon_tests.Py.Hex.{from_hex}
use neon_tests.Instr.Defs.{
  Instruction, Programs, meta, make_deposit_v03, make_create_associated_token_idempotent,
}
use neon_tests.Loader.Addresses.{Ether, text, ether2bytes, ether2program, ether2balance}
use neon_tests.Loader.Deposits.{
  Step, own, mint_to, approve, TokenTrx, deposit_neon, sent_token_from_solana_to_neon,
}

-- What a deposit is about: the address and its chain, the mint, the accounts that it takes from, that
-- hold the deposits and that it gives to, the contract's account, and the owner of the source.
pub record Deposit (P : Type 0) : Type 0 where
  pub ether : Bytes
  pub chain_id : ℕ
  pub mint : P
  pub source : P
  pub pool : P
  pub balance : P
  pub contract : P
  pub owner : P

-- The instruction that the program reads as such a deposit: its tag, the address, and the chain id in
-- 8 bytes, with the accounts in the order of the program, of which the owner alone signs.
pub record IsDepositOf {P : Type 0} (programs : Programs P) (loader : P) (d : Deposit P)
    (i : Instruction P) : Type 0 where
  pub chain : Bytes
  pub program : i.program_id ≡ loader
  pub content : i.data_bytes ≡ 0x31 ∷ (d.ether ++ chain)
  pub wide : length chain ≡ 8
  pub number : from_little chain ≡ d.chain_id
  pub moved :
      i.accounts
      ≡ meta d.mint false true
        ∷ meta d.source false true
        ∷ meta d.pool false true
        ∷ meta d.balance false true
        ∷ meta d.contract false true
        ∷ meta programs.token false false
        ∷ meta d.owner true true
        ∷ meta programs.system false false
        ∷ []

-- Some steps, then one that approves the amount for a balance account, and the deposit that takes it
-- from the approved account to that one.
pub record IsApproved {P : Type 0} (programs : Programs P) (loader : P) (d : Deposit P) (amount : ℕ)
    (before : List (Step P)) (trx : TokenTrx P) : Type 0 where
  pub deposit : Instruction P
  pub sent : trx.steps ≡ before ++ approve d.source d.balance d.owner amount ∷ own deposit ∷ []
  pub same : IsDepositOf programs loader d deposit

module _ {P : Type 0} (programs : Programs P) where
  make_deposit-IsDepositOf :
      (d : Deposit P) (loader : P) (i : Instruction P)
      → make_deposit_v03 programs d.ether d.chain_id d.balance d.contract d.mint d.source d.pool
          programs.token d.owner loader
        ≡ ok i
      → IsDepositOf programs loader d i
  unfolding make_deposit_v03
  make_deposit-IsDepositOf d loader i h =
      let (chain', e, made) = >>=-eq-ok (to_bytes_little 8 d.chain_id) _ h in
      let (fits, same) = to_bytes_little-eq-ok 8 d.chain_id e in
      subst (IsDepositOf programs loader d) (ok_injective made) (record {
        chain = chain';
        program = refl;
        content = refl;
        wide = ap length same ∙ length-to_little 8 d.chain_id;
        number = ap from_little same ∙ from_little-to_little 8 d.chain_id fits;
        moved = refl;
      })

module _ {P : Type 0} (programs : Programs P) (find_program_address : List Bytes → P → P × ℕ)
    (get_associated_token_address : P → P → P) (seed_version : Bytes) (loader : P) where
  -- The pool of a mint: the token account of the address that is found for the word `Deposit`.
  abbrev pub deposit_of : Bytes → ℕ → P → P → P → P → Deposit P
  deposit_of address chain_id mint balance contract owner = record {
    ether = address;
    chain_id = chain_id;
    mint = mint;
    source = get_associated_token_address owner mint;
    pool = get_associated_token_address (find_program_address (codes "Deposit" ∷ []) loader).0 mint;
    balance = balance;
    contract = contract;
    owner = owner;
  }

  -- If the transfer of a token is built, its steps are an approval of the amount for the balance
  -- account of the Neon address on that chain, and the loader's deposit for that address and chain,
  -- from the token account of the one who approves, by the pool of the mint, to that balance account
  -- and with the contract's account of the address; the one who approves alone signs and pays.
  pub sent_token-IsApproved :
      (solana_account mint : P) (address : Text) (amount chain_id : ℕ) (trx : TokenTrx P)
      → sent_token_from_solana_to_neon programs find_program_address get_associated_token_address
          seed_version loader solana_account mint address amount chain_id
        ≡ ok trx
      → (balance : P) × (contract : P × ℕ) × (bytes : Bytes) × (ether2balance find_program_address
            seed_version loader
            (text address)
            chain_id
          ≡ ok balance)
        × (ether2program find_program_address seed_version loader (text address) ≡ ok contract)
        × (from_hex (drop 2 address) ≡ ok bytes)
        × (trx.fee_payer ≡ some solana_account)
        × (trx.signed_by ≡ solana_account ∷ [])
        × IsApproved programs loader
            (deposit_of bytes chain_id mint balance contract.0 solana_account)
            amount
            []
            trx
  unfolding sent_token_from_solana_to_neon
  sent_token-IsApproved solana_account mint address amount chain_id trx h =
      let (balance, derived, h1) =
        >>=-eq-ok (ether2balance find_program_address seed_version loader (text address) chain_id) _
          h in
      let (contract, program, h2) =
        >>=-eq-ok (ether2program find_program_address seed_version loader (text address)) _ h1 in
      let (bytes, read, h3) = >>=-eq-ok (from_hex (drop 2 address)) _ h2 in
      let d = deposit_of bytes chain_id mint balance contract.0 solana_account in
      let (deposit, made, built) =
        >>=-eq-ok
          (make_deposit_v03 programs d.ether d.chain_id d.balance d.contract d.mint d.source d.pool
            programs.token d.owner loader)
          _ h3 in
      let all = ok_injective built in
      (
        balance,
        contract,
        bytes,
        derived,
        program,
        read,
        subst (λ t. t.fee_payer ≡ some solana_account) all refl,
        subst (λ t. t.signed_by ≡ solana_account ∷ []) all refl,
        subst (IsApproved programs loader d amount []) all (record {
          deposit = deposit;
          sent = refl;
          same = make_deposit-IsDepositOf programs d loader deposit made;
        }),
      )

  -- If the deposit of Neon tokens is built, its steps are: the token account of the operator is made
  -- where it is not there, exactly the amount is minted to it, it is approved for the balance account
  -- of the address on that chain, and the loader's deposit for that address and chain takes it from
  -- there, by the pool of the mint, to that balance account and with the contract's account of the
  -- address; the operator and the authority of the mint sign.
  pub deposit_neon-IsApproved :
      (neon_mint mint_authority operator : P) (chain_id : ℕ) (ether : Ether) (amount : ℕ)
      (trx : TokenTrx P)
      → deposit_neon programs find_program_address get_associated_token_address seed_version loader
          neon_mint mint_authority operator chain_id ether amount
        ≡ ok trx
      → (balance : P) × (contract : P × ℕ) × (address : Bytes) × (ether2balance find_program_address
            seed_version loader ether chain_id
          ≡ ok balance)
        × (ether2program find_program_address seed_version loader ether ≡ ok contract)
        × (ether2bytes ether ≡ ok address)
        × (trx.signed_by ≡ operator ∷ mint_authority ∷ [])
        × IsApproved programs loader
            (deposit_of address chain_id neon_mint balance contract.0 operator)
            amount
            (own (
                make_create_associated_token_idempotent programs get_associated_token_address
                  operator operator neon_mint)
              ∷ mint_to neon_mint
                  (get_associated_token_address operator neon_mint)
                  mint_authority
                  amount
              ∷ [])
            trx
  unfolding deposit_neon
  deposit_neon-IsApproved neon_mint mint_authority operator chain_id ether amount trx h =
      let (balance, derived, h1) =
        >>=-eq-ok (ether2balance find_program_address seed_version loader ether chain_id) _ h in
      let (contract, program, h2) =
        >>=-eq-ok (ether2program find_program_address seed_version loader ether) _ h1 in
      let (address, read, h3) = >>=-eq-ok (ether2bytes ether) _ h2 in
      let d = deposit_of address chain_id neon_mint balance contract.0 operator in
      let (deposit, made, built) =
        >>=-eq-ok
          (make_deposit_v03 programs d.ether d.chain_id d.balance d.contract d.mint d.source d.pool
            programs.token d.owner loader)
          _ h3 in
      let before : List (Step P) =
        own (
          make_create_associated_token_idempotent programs get_associated_token_address operator
            operator neon_mint)
        ∷ mint_to neon_mint d.source mint_authority amount
        ∷ [] in
      let all = ok_injective built in
      (
        balance,
        contract,
        address,
        derived,
        program,
        read,
        subst (λ t. t.signed_by ≡ operator ∷ mint_authority ∷ []) all refl,
        subst (IsApproved programs loader d amount before) all (record {
          deposit = deposit;
          sent = refl;
          same = make_deposit-IsDepositOf programs d loader deposit made;
        }),
      )
