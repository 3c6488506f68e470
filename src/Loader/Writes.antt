-- ===== src/Loader/Writes.antt =====
-- `EvmLoader.write_transaction_to_holder_account`. What a send and a confirmation of the network end
-- with is given: a receipt of an abstract type, or an exception.
use neon_tests.Prelude.{ℕ, zero, suc, ◌+◌, [], ◌∷◌, ◌++◌, List, length, take, drop}
use neon_tests.Py.{Result, ok, err, out_of_fuel}
use neon_tests.Py.Bytes.{Bytes}
use neon_tests.Instr.Defs.{Instruction, make_write_holder}

abbrev pub chunk_size : ℕ
chunk_size = 920

-- What the client does, in order.
pub data Event (P R : Type 0) : Type 0 where
  sent : Instruction P → Event P R
  confirmed : R → Event P R

-- The instructions that were sent, and how the loop ended.
abbrev pub Sent : Type 0 → Type 0
Sent P = List (Instruction P) × Result (Unit {0})

-- An instruction that cannot be built ends the loop, behind what was sent before.
unfoldable pub send_then : {P : Type 0} → Result (Instruction P) → Sent P → Sent P
send_then (err e) more = ([], err e)
send_then (ok i) (is, r) = (i ∷ is, r)

module _ {P : Type 0} (operator loader holder : P) (hash : Bytes) where
  -- `while len(rest)`: each round takes a byte at least.
  unfoldable pub write_loop : ℕ → ℕ → Bytes → Sent P
  unfolding send_then
  write_loop f offset [] = ([], ok tt)
  write_loop zero offset (b ∷ bs) = ([], err out_of_fuel)
  write_loop (suc f) offset (b ∷ bs) =
      let part = take chunk_size (b ∷ bs) in
      send_then (make_write_holder operator loader holder hash offset part)
        (write_loop f (offset + length part) (drop chunk_size (b ∷ bs)))

  unfoldable pub send_writes : Bytes → Sent P
  unfolding write_loop
  send_writes raw = write_loop (length raw) 0 raw

-- What was done before an exception, or before the value.
abbrev pub Done : Type 0 → Type 0 → Type 0 → Type 0
Done P R A = List (Event P R) × Result A

module _ {P R : Type 0} where
  abbrev pub after_event : {A : Type 0} → Event P R → Done P R A → Done P R A
  after_event e (es, r) = (e ∷ es, r)

  abbrev pub with_receipt : R → Done P R (List R) → Done P R (List R)
  with_receipt r (es, err e) = (es, err e)
  with_receipt r (es, ok rs) = (es, ok (r ∷ rs))

  abbrev pub after_send : Result R → Done P R (List R) → Done P R (List R)
  after_send (err e) more = ([], err e)
  after_send (ok r) more = with_receipt r more

  -- The sends of the loop: one that raises is the last, and after those that were built comes the
  -- exception of the one that was not.
  unfoldable pub send_all :
      (send_transaction : Instruction P → Result R)
      → List (Instruction P)
      → Result (Unit {0})
      → Done P R (List R)
  send_all send_transaction [] (err e) = ([], err e)
  send_all send_transaction [] (ok u) = ([], ok [])
  send_all send_transaction (i ∷ is) built =
      after_event (sent i) (after_send (send_transaction i) (send_all send_transaction is built))

  abbrev pub after_confirm : Result (Unit {0}) → Done P R (Unit {0}) → Done P R (Unit {0})
  after_confirm (err e) more = ([], err e)
  after_confirm (ok u) more = more

  -- The confirmations, one of which may raise.
  unfoldable pub confirm_all :
      (confirm_transaction : R → Result (Unit {0})) → List R → Done P R (Unit {0})
  confirm_all confirm_transaction [] = ([], ok tt)
  confirm_all confirm_transaction (r ∷ rs) =
      after_event (confirmed r)
        (after_confirm (confirm_transaction r) (confirm_all confirm_transaction rs))

  abbrev pub followed : Done P R (List R) → (List R → Done P R (Unit {0})) → Done P R (Unit {0})
  followed (es, err e) next = (es, err e)
  followed (es, ok rs) next = (es ++ (next rs).0, (next rs).1)

module _ {P R : Type 0} (operator loader holder : P) (hash : Bytes) where
  -- After the loop, every receipt is confirmed.
  unfoldable pub write_transaction_to_holder_account :
      (send_transaction : Instruction P → Result R) (confirm_transaction : R → Result (Unit {0}))
      → Bytes
      → Done P R (Unit {0})
  unfolding send_writes send_all confirm_all
  write_transaction_to_holder_account send_transaction confirm_transaction raw =
      let planned = send_writes operator loader holder hash raw in
      followed (send_all send_transaction planned.0 planned.1) (confirm_all confirm_transaction)
