-- ===== src/Clients/Rpc/Answers.antt =====
-- What the JSON-RPC client accepts, and when it stops waiting.
use neon_tests.Prelude.{
  ℕ, zero, suc, ◌+◌, ◌<◌, ◌≤◌, ◌≡◌, refl, ap, subst, ◌∙◌, ◌⊎◌, inl, inr, Option, none, some, ◌==◌,
  Bool, true, false, arith,
}
use neon_tests.Prelude.Int.{ℤ, pos, sub_ℕ, ltb_ℤ}
use neon_tests.Prelude.Text.{Text}
use neon_tests.Py.{Result, ok, guard, assertion_error, >>=-eq-ok, >>-eq-ok, ok_injective}
use neon_tests.Clients.Rpc.{
  Params, Body, Response, is_there, body_of, check_keys, check_response, send_rpc, wait_loop,
  finalized_of, wait_finalized_block,
}

-- Either a result, with the id of the request, or an error.
abbrev pub IsAnswer : {V : Type 0} → ℕ → Response V → Type 0
IsAnswer {V} req_id r =
    ((v : V) × (r.result ≡ some v) × (r.error ≡ none) × (r.id ≡ some req_id))
    ⊎ ((v : V) × (r.error ≡ some v) × (r.result ≡ none))

same_number : (a b : ℕ) → guard (a == b) assertion_error ≡ ok tt → a ≡ b
same_number a b h = ground arith

keys-IsAnswer :
    {V : Type 0} (req_id : ℕ) (id : Option ℕ) (result error : Option V)
    → check_keys req_id id (is_there result) (is_there error) ≡ ok tt
    → IsAnswer req_id (record { id = id; result = result; error = error })
keys-IsAnswer req_id id none none h = cc
keys-IsAnswer req_id id none (some e) h = inr (e, refl, refl)
keys-IsAnswer req_id id (some v) (some e) h = cc
keys-IsAnswer req_id none (some v) none h = cc
keys-IsAnswer req_id (some n) (some v) none h =
    inl (v, refl, refl, ap some (same_number n req_id h))

-- If a call returns, what it returns was posted for its body, and has either a result and the id of
-- the request, or an error.
pub send_rpc-IsAnswer :
    {V : Type 0} (truthy : V → Bool) (post : Body V → Result (Response V)) (req_id : ℕ)
    (method : Text) (params : Params V) (req_type : Option Text) (r : Response V)
    → send_rpc truthy post req_id method params req_type ≡ ok r
    → (post (body_of truthy method params req_type req_id) ≡ ok r) × IsAnswer req_id r
unfolding send_rpc check_response
send_rpc-IsAnswer truthy post req_id method params req_type r h =
    let (r', posted, checked) =
      >>=-eq-ok (post (body_of truthy method params req_type req_id)) _ h in
    let (fine, same) =
      >>-eq-ok (check_keys req_id r'.id (is_there r'.result) (is_there r'.error)) _ r checked in
    (
      posted ∙ same,
      subst (IsAnswer req_id) (ok_injective same)
          (keys-IsAnswer req_id r'.id r'.result r'.error fine),
    )

-- The loop at a call, where the number before it is too small.
wait_loop-next :
    (finalized : ℕ → Result ℤ) (f k block : ℕ) (fin n : ℤ)
    → ltb_ℤ fin (pos block) ≡ true
    → finalized k ≡ ok n
    → wait_loop finalized (suc f) k block fin ≡ wait_loop finalized f (suc k) block n
unfolding wait_loop
wait_loop-next finalized f k block fin n small e = rw (small, e) refl

wait_loop-last :
    (finalized : ℕ → Result ℤ) (f k block : ℕ) (fin : ℤ)
    → ltb_ℤ fin (pos block) ≡ false
    → wait_loop finalized (suc f) k block fin ≡ ok k
unfolding wait_loop
wait_loop-last finalized f k block fin large = rw large refl

-- Up to the call `n` the numbers are too small, and that of call `n` is not.
abbrev pub IsReachedAt : (ℕ → Result ℤ) → ℕ → ℕ → Type 0
IsReachedAt finalized block n =
    ((k : ℕ) → k < n → (z : ℤ) × (finalized k ≡ ok z) × (ltb_ℤ z (pos block) ≡ true))
    × (z : ℤ) × (finalized n ≡ ok z)
    × (ltb_ℤ z (pos block) ≡ false)

wait_loop-reached :
    (finalized : ℕ → Result ℤ) (d f k n block : ℕ) (fin : ℤ)
    → k + d ≡ n
    → d + 2 ≤ f
    → ltb_ℤ fin (pos block) ≡ true
    → IsReachedAt finalized block n
    → wait_loop finalized f k block fin ≡ ok (n + 1)
wait_loop-reached finalized zero zero k n block fin at enough small reached = absurd (omega arith)
wait_loop-reached finalized zero (suc zero) k n block fin at enough small reached =
    absurd (omega arith)
wait_loop-reached finalized zero (suc (suc f)) k n block fin at enough small (before, z, e, large) =
    let here : k ≡ n = omega arith in
    wait_loop-next finalized (suc f) k block fin z small (ap finalized here ∙ e)
    ∙ wait_loop-last finalized f (suc k) block z large
    ∙ ap (λ (m : ℕ). ok m) {x = suc k} {y = n + 1} (omega arith)
wait_loop-reached finalized (suc d) zero k n block fin at enough small reached =
    absurd (omega arith)
wait_loop-reached finalized (suc d) (suc f) k n block fin at enough small reached =
    let (z, e, smaller) = reached.0 k (omega arith) in
    wait_loop-next finalized f k block fin z small e
    ∙ wait_loop-reached finalized d f (suc k) n block z (omega arith) (omega arith) smaller reached

below-start : (block : ℕ) → ltb_ℤ (sub_ℕ block 32) (pos block) ≡ true
below-start block = ground arith

-- If call `n` is the first whose answer has the number of the block or a later one, and the calls
-- before it answer with numbers, waiting ends after that call; with fuel for two rounds more.
pub wait_finalized_block-ends :
    (answers : ℕ → Result (Response Text)) (fuel block_num n : ℕ)
    → n + 2 ≤ fuel
    → IsReachedAt (λ k. finalized_of (answers k)) block_num n
    → wait_finalized_block answers fuel block_num ≡ ok (n + 1)
unfolding wait_finalized_block
wait_finalized_block-ends answers fuel block_num n enough reached =
    wait_loop-reached (λ k. finalized_of (answers k)) n fuel 0 n block_num (sub_ℕ block_num 32)
      (omega arith) enough (below-start block_num) reached
