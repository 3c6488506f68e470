-- ===== src/Clients/Prices.antt =====
-- utils/prices.py: the prices of tokens. What a query of a feed gives is given, and so is whether the
-- timeout is over.
use neon_tests.Prelude.{[], ◌∷◌, List, Option, none, some, Bool, true, false}
use neon_tests.Py.{Result, ok, err, attribute_error, assertion_error, timeout_error}

pub data Network : Type 0 where
  mainnet testnet devnet : Network

-- The networks of `SOL_FEED_ADDRESSES`, in order.
abbrev pub sol_networks : List Network
sol_networks = mainnet ∷ testnet ∷ devnet ∷ []

abbrev pub btc_networks : List Network
btc_networks = devnet ∷ []

-- The account of a price whose update may fail: then there is none.
abbrev pub get_price : {A : Type 0} → Result A → Option A
get_price (err e) = none
get_price (ok account) = some account

module _ {F : Type 0} where
  -- `get_price(…).aggregate_price`, which may be `None` itself.
  abbrev pub aggregate_price : Option (Option F) → Result (Option F)
  aggregate_price none = err attribute_error
  aggregate_price (some price) = ok price

  -- A query that raises leads to the next network, every other one ends the loop.
  abbrev pub price_or : Result (Option F) → Option F → Option F
  price_or (err e) next = next
  price_or (ok price) next = price

  pub price_loop : (update : Network → Result (Option F)) → List Network → Option F
  price_loop update [] = none
  price_loop update (n ∷ ns) =
      price_or (aggregate_price (get_price (update n))) (price_loop update ns)

  unfoldable pub get_sol_price : (update : Network → Result (Option F)) → Option F
  unfolding price_loop
  get_sol_price update = price_loop update sol_networks

  -- The body of the loop returns, so it is run at most once. `attempt` gives the updates of the two
  -- attempts, and `in_time` whether the first ended before the timeout.
  abbrev pub retried : Option F → Bool → Option F → Result (Option F)
  retried (some price) in_time again = ok (some price)
  retried none true again = ok again
  retried none false again = err timeout_error

  pub get_sol_price_with_retry :
      (first : Network → Result (Option F))
      → (in_time : Bool) → (again : Network → Result (Option F)) → Result (Option F)
  unfolding get_sol_price
  get_sol_price_with_retry first in_time again =
      retried (get_sol_price first) in_time (get_sol_price again)

-- `get_btc_price_detailed`: the account itself, `None` where its update failed, ends the loop. What
-- `asyncio.run` raises leads to the next network.
abbrev pub detailed_or : {A : Type 0} → Result (Option A) → Result (Option A) → Result (Option A)
detailed_or (err e) next = next
detailed_or (ok result) next = ok result

pub detailed_loop : {A : Type 0} → (Network → Result (Option A)) → List Network → Result (Option A)
detailed_loop query [] = err assertion_error
detailed_loop query (n ∷ ns) = detailed_or (query n) (detailed_loop query ns)

pub get_btc_price_detailed : {A : Type 0} → (Network → Result (Option A)) → Result (Option A)
unfolding detailed_loop
get_btc_price_detailed query = detailed_loop query btc_networks
