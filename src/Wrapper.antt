-- ===== src/Wrapper.antt =====
-- utils/erc20wrapper.py: the token wrapper's constructor, its deployment and its calls. A call builds a
-- transaction of the old type with the contract's function, signs it and sends it. What the node and
-- the libraries do with it is given.
use neon_tests.Prelude.{ℕ, [], ◌∷◌, ◌++◌, List, Option, none, some, ◌==◌, Bool, true, false}
use neon_tests.Prelude.Text.{Text}
use neon_tests.Py.{Result, ok, err, ◌>>=◌, ◌>>◌, guard, assertion_error, index_error}
use neon_tests.Clients.Solana.{Sent, create_spl}
use neon_tests.Web3.{Node, LegacyTrx, make_raw_tx}
use neon_tests.Web3.Client.{send_neon}

-- The functions of the two contracts, with their arguments; a Solana key is a text.
pub data Function : Type 0 where
  create_erc20_for_spl_mintable : (name symbol : Text) (decimals : ℕ) (owner : Text) → Function
  create_erc20_for_spl : (mint : Text) → Function
  mint_call claim_call approve_call transfer_call transfer_solana_call approve_solana_call :
      Text → ℕ → Function
  claim_to_call transfer_from_call : Text → Text → ℕ → Function
  burn_call : ℕ → Function
  burn_from_call : Text → ℕ → Function

-- What the deployment of a wrapper sends to Solana: the messages for a token, and its metadata.
pub data Solana : Type 0 where
  token : Sent Text → Solana
  metadata : (mint payer : Text) → Solana

abbrev pub tokens : List (Sent Text) → List Solana
tokens [] = []
tokens (s ∷ ss) = token s ∷ tokens ss

-- A token of its own, described by the metadata. `mint` is its key.
unfoldable pub prepare_spl_token : Text → ℕ → (mint : Text) → List Solana
prepare_spl_token solana_acc decimals mint =
    tokens (create_spl solana_acc decimals) ++ metadata mint solana_acc ∷ []

-- Without `mintable`, a first token is made, and then the one that counts.
abbrev pub solana_part : Bool → Text → ℕ → Text → List Solana
solana_part true solana_acc decimals mint = []
solana_part false solana_acc decimals mint =
    tokens (create_spl solana_acc decimals) ++ prepare_spl_token solana_acc decimals mint

abbrev pub creation : Bool → Text → Text → ℕ → Text → Text → Function
creation true name symbol decimals account mint =
    create_erc20_for_spl_mintable name symbol decimals account
creation false name symbol decimals account mint = create_erc20_for_spl mint

abbrev pub first_pair : List Text → Result Text
first_pair [] = err index_error
first_pair (p ∷ ps) = ok p

-- Where the owner's account gets its balance from.
pub data Start : Type 0 where
  sent_by_bank : LegacyTrx → Start
  requested : (address : Text) (amount : ℕ) → Start

module _ (node : Node) {Built Receipt : Type 0} (build : Function → LegacyTrx → Result Built)
    (sent : Text → Built → Result Receipt) where
  abbrev pub execute : Function → Text → Option ℕ → Option ℕ → Result Receipt
  execute function signer gas_price gas = do
    instruction_tx ←
        build function (make_raw_tx node signer none none gas gas_price none none none false)
    sent signer instruction_tx

  pub mint_tokens : Text → Text → ℕ → Option ℕ → Option ℕ → Result Receipt
  mint_tokens signer to_address amount gas_price gas =
      execute (mint_call to_address amount) signer gas_price gas

  pub claim : Text → Text → ℕ → Option ℕ → Option ℕ → Result Receipt
  claim signer from_address amount gas_price gas =
      execute (claim_call from_address amount) signer gas_price gas

  pub claim_to : Text → Text → Text → ℕ → Option ℕ → Option ℕ → Result Receipt
  claim_to signer from_address to_address amount gas_price gas =
      execute (claim_to_call from_address to_address amount) signer gas_price gas

  pub burn : Text → ℕ → Option ℕ → Option ℕ → Result Receipt
  burn signer amount gas_price gas = execute (burn_call amount) signer gas_price gas

  pub burn_from : Text → Text → ℕ → Option ℕ → Option ℕ → Result Receipt
  burn_from signer from_address amount gas_price gas =
      execute (burn_from_call from_address amount) signer gas_price gas

  pub approve : Text → Text → ℕ → Option ℕ → Option ℕ → Result Receipt
  approve signer spender_address amount gas_price gas =
      execute (approve_call spender_address amount) signer gas_price gas

  pub transfer : Text → Text → ℕ → Option ℕ → Option ℕ → Result Receipt
  transfer signer address_to amount gas_price gas =
      execute (transfer_call address_to amount) signer gas_price gas

  pub transfer_from : Text → Text → Text → ℕ → Option ℕ → Option ℕ → Result Receipt
  transfer_from signer address_from address_to amount gas_price gas =
      execute (transfer_from_call address_from address_to amount) signer gas_price gas

  pub transfer_solana : Text → Text → ℕ → Option ℕ → Option ℕ → Result Receipt
  transfer_solana signer address_to amount gas_price gas =
      execute (transfer_solana_call address_to amount) signer gas_price gas

  pub approve_solana : Text → Text → ℕ → Option ℕ → Option ℕ → Result Receipt
  approve_solana signer spender amount gas_price gas =
      execute (approve_solana_call spender amount) signer gas_price gas

  -- The address of the new wrapper, from the first event of the receipt; with what is sent to Solana
  -- once the factory is deployed.
  pub deploy_wrapper :
      (factory_status : Result ℕ) (pairs_of : Receipt → List Text) (name symbol : Text)
      (decimals : ℕ)
      → (account solana_acc second_mint : Text) (mintable : Bool)
      → Result (List Solana × Result Text)
  unfolding prepare_spl_token
  deploy_wrapper factory_status pairs_of name symbol decimals account solana_acc second_mint
        mintable =
      do
        status ← factory_status
        guard (status == 1) assertion_error
        ok (
          solana_part mintable solana_acc decimals second_mint,
          (do
            receipt ←
                execute (creation mintable name symbol decimals account second_mint) account none
                  none
            first_pair (pairs_of receipt)),
        )

-- The owner, given or new, and how it is provided for.
pub owner_of : (node : Node) (fresh : Text) → Option Text → Option Text → Text × Option Start
owner_of node fresh none none = (fresh, some (requested fresh 150))
owner_of node fresh none (some bank) =
    (fresh, some (sent_by_bank (send_neon node bank fresh 50 none none none)))
owner_of node fresh (some account) none = (account, none)
owner_of node fresh (some account) (some bank) =
    (account, some (sent_by_bank (send_neon node bank account 50 none none none)))
