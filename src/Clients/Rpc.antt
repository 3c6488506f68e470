-- ===== src/Clients/Rpc.antt =====
-- utils/apiclient.py: the JSON-RPC session. Values of JSON are given, and so is what a post returns.
pub mod Answers
use neon_tests.Prelude.{
  ℕ, zero, suc, [], ◌∷◌, List, Option, none, some, ◌==◌, ◌||◌, if◌then◌else◌, not, Bool, true,
  false,
}
use neon_tests.Prelude.Int.{ℤ, pos, sub_ℕ, ltb_ℤ}
use neon_tests.Prelude.Text.{Text, codes}
use neon_tests.Py.{
  Result, ok, err, or_raise, ◌>>=◌, ◌>>◌, guard, key_error, assertion_error, out_of_fuel,
}
use neon_tests.Py.Bytes.{Bytes}
use neon_tests.Py.Hex.{to_hex}
use neon_tests.Py.Number.{int}

-- The parameters of a call: none, one value that is no list, or a list.
pub data Params (V : Type 0) : Type 0 where
  absent : Params V
  one : V → Params V
  many : List V → Params V

pub record Body (V : Type 0) : Type 0 where
  pub method : Text
  pub id : ℕ
  pub req_type : Option Text
  pub params : Option (List V)

-- The keys of a decoded answer that the code reads. An id other than a number is none of a request.
pub record Response (V : Type 0) : Type 0 where
  pub id : Option ℕ
  pub result : Option V
  pub error : Option V

abbrev pub is_there : {A : Type 0} → Option A → Bool
is_there none = false
is_there (some a) = true

module _ {V : Type 0} (truthy : V → Bool) where
  -- `if params:` and `[params]`
  unfoldable pub params_of : Params V → Option (List V)
  params_of absent = none
  params_of (one v) = if truthy v then some (v ∷ []) else none
  params_of (many []) = none
  params_of (many (v ∷ vs)) = some (v ∷ vs)

  unfoldable pub body_of : Text → Params V → Option Text → ℕ → Body V
  unfolding params_of
  body_of method params req_type req_id = record {
    method = method;
    id = req_id;
    req_type = req_type;
    params = params_of params;
  }

abbrev pub same_id : ℕ → Option ℕ → Result (Unit {0})
same_id req_id none = err key_error
same_id req_id (some id) = guard (id == req_id) assertion_error

-- The checks of an answer, by whether it has a result and an error.
abbrev pub check_keys : ℕ → Option ℕ → Bool → Bool → Result (Unit {0})
check_keys req_id id result true = guard (not result) assertion_error
check_keys req_id id true false = same_id req_id id
check_keys req_id id false false = err assertion_error

unfoldable pub check_response : {V : Type 0} → ℕ → Response V → Result (Unit {0})
check_response req_id r = check_keys req_id r.id (is_there r.result) (is_there r.error)

abbrev pub result_of : {V : Type 0} → Response V → Result V
result_of r = or_raise r.result key_error

-- The hash is one of bytes, and is printed with `0x` before it.
abbrev pub hash_params : {V : Type 0} → (Text → V) → Bytes → Params V
hash_params string trx_hash = many (string (48 ∷ 120 ∷ to_hex trx_hash) ∷ [])

module _ {V : Type 0} (truthy : V → Bool) (post : Body V → Result (Response V)) where
  -- The id of the request is drawn at random.
  unfoldable pub send_rpc : ℕ → Text → Params V → Option Text → Result (Response V)
  unfolding body_of check_response
  send_rpc req_id method params req_type = do
    response ← post (body_of truthy method params req_type req_id)
    check_response req_id response >> ok response

  -- The methods, with a text as a value of JSON.
  module _ (string : Text → V) where
    pub get_contract_code : ℕ → Text → Result V
    unfolding send_rpc
    get_contract_code req_id address = do
      response ←
          send_rpc req_id (codes "eth_getCode")
            (many (string address ∷ string (codes "latest") ∷ [])) none
      result_of response

    pub get_neon_trx_receipt : ℕ → Bytes → Result (Response V)
    unfolding send_rpc
    get_neon_trx_receipt req_id trx_hash =
        send_rpc req_id (codes "neon_getTransactionReceipt") (hash_params string trx_hash) none

    pub get_solana_trx_by_neon : ℕ → Bytes → Result (Response V)
    unfolding send_rpc
    get_solana_trx_by_neon req_id trx_hash =
        send_rpc req_id (codes "neon_getSolanaTransactionByNeonTransaction")
          (hash_params string trx_hash) none

-- The loop of `wait_finalized_block`, from the call `k` on, with what every call gives; it returns the
-- number of calls.
pub wait_loop : (ℕ → Result ℤ) → (fuel : ℕ) → ℕ → ℕ → ℤ → Result ℕ
wait_loop finalized zero k block_num fin_block_num = err out_of_fuel
wait_loop finalized (suc f) k block_num fin_block_num =
    let more = finalized k >>= λ n. wait_loop finalized f (suc k) block_num n in
    if ltb_ℤ fin_block_num (pos block_num) then more else ok k

-- The number of a finalized block, of an answer.
unfoldable pub finalized_of : Result (Response Text) → Result ℤ
finalized_of answer = do response ← answer; text ← or_raise response.result key_error; int 16 text

unfoldable pub wait_finalized_block :
    (answers : ℕ → Result (Response Text)) → (fuel : ℕ) → ℕ → Result ℕ
unfolding wait_loop finalized_of
wait_finalized_block answers fuel block_num =
    wait_loop (λ k. finalized_of (answers k)) fuel 0 block_num (sub_ℕ block_num 32)
