-- ===== src/Loader/Chunks.antt =====
-- Which writes the loop sends.
use neon_tests.Prelude.{
  ℕ, zero, suc, ◌+◌, ◌/◌, ◌^◌, ◌<◌, ◌≤◌, ◌≡◌, refl, ap, [], ◌∷◌, ◌++◌, List, Option, some, map,
  arith, length, take, drop, length-take, length-drop, All,
}
use neon_tests.Py.{Error, Result, ok, err, ◌>>=◌}
use neon_tests.Py.Bytes.{Bytes}
use neon_tests.Instr.Defs.{Instruction}
use neon_tests.Instr.Layout.{HolderWrite, read_write, make_write_holder-read}
use neon_tests.Loader.Writes.{
  Event, sent, confirmed, Done, after_event, after_send, send_all, after_confirm, confirm_all,
  followed, write_transaction_to_holder_account, chunk_size, Sent, send_then, write_loop,
  send_writes,
}

-- The writes that cover a text from an offset on.
unfoldable pub chunks : ℕ → Bytes → ℕ → Bytes → List HolderWrite
chunks zero hash offset rest = []
chunks (suc f) hash offset [] = []
chunks (suc f) hash offset (b ∷ bs) =
    let part = take chunk_size (b ∷ bs) in
    record { hash = hash; offset = offset; payload = part }
    ∷ chunks f hash (offset + length part) (drop chunk_size (b ∷ bs))

module _ {P : Type 0} where
  -- The writes that the program reads off a list of instructions.
  abbrev pub read_writes : List (Instruction P) → List (Option HolderWrite)
  read_writes = map (λ (i : Instruction P). read_write i.data_bytes)

  -- The loop ended without an error, and the program reads these writes off what it sent.
  pub record Wrote (ws : List HolderWrite) (s : Sent P) : Type 0 where
    pub ended : s.1 ≡ ok tt
    pub writes : read_writes s.0 ≡ map some ws

  send_then-Wrote :
      (w : HolderWrite) (ws : List HolderWrite) (r : Result (Instruction P)) (s : Sent P)
      → (i : Instruction P) → r ≡ ok i
      → read_write i.data_bytes ≡ some w
      → Wrote ws s
      → Wrote (w ∷ ws) (send_then r s)
  unfolding send_then
  send_then-Wrote w ws r s i e d h =
      rw e (record { ended = h.ended; writes = rw d (ap (λ t. some w ∷ t) h.writes) })

module _ {P : Type 0} (operator loader holder : P) (hash : Bytes)
    (hash_of_32 : length hash ≡ 32) where
  write_loop-Wrote :
      (f offset : ℕ) (rest : Bytes)
      → length rest ≤ f
      → offset + length rest < 256 ^ 8
      → Wrote (chunks f hash offset rest) (write_loop operator loader holder hash f offset rest)
  unfolding write_loop chunks
  write_loop-Wrote zero offset [] h s = record { ended = refl; writes = refl }
  write_loop-Wrote (suc f) offset [] h s = record { ended = refl; writes = refl }
  write_loop-Wrote zero offset (b ∷ bs) h s = absurd (omega arith)
  write_loop-Wrote (suc f) offset (b ∷ bs) h s =
      let part = take chunk_size (b ∷ bs) in
      let (i, e, accounts, read) =
        make_write_holder-read operator loader holder hash offset part hash_of_32 (omega arith) in
      send_then-Wrote _ _ _ _ i e read (
        write_loop-Wrote f (offset + length part) (drop chunk_size (b ∷ bs))
          (omega (arith, length-drop {0} chunk_size (b ∷ bs)))
          (omega (arith, length-drop {0} chunk_size (b ∷ bs), length-take {0} chunk_size (b ∷ bs))))

  -- With a hash of 32 bytes and a transaction below 2 ^ 64 bytes, the loop ends without an error,
  -- and the program reads the chunks off the instructions that were sent, in order.
  pub send_writes-Wrote :
      (raw : Bytes)
      → length raw < 256 ^ 8
      → Wrote (chunks (length raw) hash 0 raw) (send_writes operator loader holder hash raw)
  unfolding send_writes
  send_writes-Wrote raw h = write_loop-Wrote (length raw) 0 raw (omega arith) (omega arith)

-- Every chunk has between 1 and 920 bytes.
chunks-sizes :
    (f : ℕ) (hash : Bytes) (offset : ℕ) (rest : Bytes)
    → All
        (λ w. (0 < length w.payload) × (length w.payload ≤ chunk_size))
        (chunks f hash offset rest)
unfolding chunks
chunks-sizes zero hash offset rest = tt
chunks-sizes (suc f) hash offset [] = tt
chunks-sizes (suc f) hash offset (b ∷ bs) = (
  omega (arith, length-take {0} chunk_size (b ∷ bs)),
  chunks-sizes f hash (offset + length (take chunk_size (b ∷ bs))) (drop chunk_size (b ∷ bs)),
)

chunks-count :
    (f : ℕ) (hash : Bytes) (offset : ℕ) (rest : Bytes)
    → length rest ≤ f
    → length (chunks f hash offset rest) ≡ (length rest + 919) / 920
unfolding chunks
chunks-count zero hash offset [] h = refl
chunks-count zero hash offset (b ∷ bs) h = absurd (omega arith)
chunks-count (suc f) hash offset [] h = refl
chunks-count (suc f) hash offset (b ∷ bs) h =
    let rest = drop chunk_size (b ∷ bs) in
    let len = length-drop {0} chunk_size (b ∷ bs) in
    omega (
      arith,
      len,
      chunks-count f hash (offset + length (take chunk_size (b ∷ bs))) rest (omega (arith, len)),
    )

module _ {P R : Type 0} (send_transaction : Instruction P → Result R)
    (confirm_transaction : R → Result (Unit {0})) where
  -- The sends up to the one that raised, with its exception, or all of them with their receipts.
  pub data Sending : List (Instruction P) → List (Event P R) → Result (List R) → Type 0 where
    all_sent : Sending [] [] (ok [])
    raised :
        (i : Instruction P) (is : List (Instruction P)) (e : Error)
        → send_transaction i ≡ err e
        → Sending (i ∷ is) (sent i ∷ []) (err e)
    answered :
        (i : Instruction P) (is : List (Instruction P)) (r : R) (es : List (Event P R))
        (rest : Result (List R))
        → send_transaction i ≡ ok r
        → Sending is es rest
        → Sending (i ∷ is) (sent i ∷ es) (do rs ← rest; ok (r ∷ rs))

  -- The confirmations up to the one that raised, with its exception, or all of them.
  pub data Confirming : List R → List (Event P R) → Result (Unit {0}) → Type 0 where
    all_confirmed : Confirming [] [] (ok tt)
    failed :
        (r : R) (rs : List R) (e : Error)
        → confirm_transaction r ≡ err e
        → Confirming (r ∷ rs) (confirmed r ∷ []) (err e)
    passed :
        (r : R) (rs : List R) (es : List (Event P R)) (rest : Result (Unit {0}))
        → confirm_transaction r ≡ ok tt
        → Confirming rs es rest
        → Confirming (r ∷ rs) (confirmed r ∷ es) rest

  -- A run of the client on some instructions: it raises while sending, or sends all and confirms.
  pub data Run (is : List (Instruction P)) : List (Event P R) → Result (Unit {0}) → Type 0 where
    stopped : (es : List (Event P R)) (e : Error) → Sending is es (err e) → Run is es (err e)
    finished :
        (es fs : List (Event P R)) (rs : List R) (end : Result (Unit {0}))
        → Sending is es (ok rs)
        → Confirming rs fs end
        → Run is (es ++ fs) end

  after_send-Sending :
      (i : Instruction P) (is : List (Instruction P)) (a : Result R) (d : Done P R (List R))
      → send_transaction i ≡ a
      → Sending is d.0 d.1
      → Sending
          (i ∷ is)
          (after_event (sent i) (after_send a d)).0
          (after_event (sent i) (after_send a d)).1
  after_send-Sending i is (err e) d q h = raised i is e q
  after_send-Sending i is (ok r) (es, err e) q h = answered i is r es (err e) q h
  after_send-Sending i is (ok r) (es, ok rs) q h = answered i is r es (ok rs) q h

  send_all-Sending :
      (is : List (Instruction P))
      → Sending is (send_all send_transaction is (ok tt)).0 (send_all send_transaction is (ok tt)).1
  unfolding send_all
  send_all-Sending [] = all_sent
  send_all-Sending (i ∷ is) =
      after_send-Sending i is (send_transaction i) (send_all send_transaction is (ok tt)) refl
        (send_all-Sending is)

  after_confirm-Confirming :
      (r : R) (rs : List R) (a : Result (Unit {0})) (d : Done P R (Unit {0}))
      → confirm_transaction r ≡ a
      → Confirming rs d.0 d.1
      → Confirming
          (r ∷ rs)
          (after_event (confirmed r) (after_confirm a d)).0
          (after_event (confirmed r) (after_confirm a d)).1
  after_confirm-Confirming r rs (err e) d q h = failed r rs e q
  after_confirm-Confirming r rs (ok tt) d q h = passed r rs d.0 d.1 q h

  confirm_all-Confirming :
      (rs : List R)
      → Confirming rs
          (confirm_all {P = P} confirm_transaction rs).0
          (confirm_all {P = P} confirm_transaction rs).1
  unfolding confirm_all
  confirm_all-Confirming [] = all_confirmed
  confirm_all-Confirming (r ∷ rs) =
      after_confirm-Confirming r rs (confirm_transaction r) (confirm_all confirm_transaction rs)
        refl (confirm_all-Confirming rs)

  followed-Run :
      (is : List (Instruction P)) (d : Done P R (List R))
      → Sending is d.0 d.1
      → Run is
          (followed d (confirm_all confirm_transaction)).0
          (followed d (confirm_all confirm_transaction)).1
  followed-Run is (es, err e) h = stopped es e h
  followed-Run is (es, ok rs) h = finished es _ rs _ h (confirm_all-Confirming rs)

  built-Run :
      (is : List (Instruction P)) (built : Result (Unit {0}))
      → built ≡ ok tt
      → Run is
          (followed (send_all send_transaction is built) (confirm_all confirm_transaction)).0
          (followed (send_all send_transaction is built) (confirm_all confirm_transaction)).1
  built-Run is (ok tt) h =
      followed-Run is (send_all send_transaction is (ok tt)) (send_all-Sending is)
  built-Run is (err e) h = cc

  -- With a hash of 32 bytes and a transaction below 2 ^ 64 bytes, there is one instruction for each
  -- 920 bytes begun, and none of them carries more than 920 bytes, or none. The client sends them in
  -- order up to the first send that raises, and ends with its exception; if none raises, it then
  -- confirms their receipts in the same order up to the first confirmation that raises, and ends with
  -- its exception; if none raises, it has confirmed all of them and ends without an error.
  pub write_transaction-Run :
      (operator loader holder : P) (hash raw : Bytes)
      → length hash ≡ 32
      → length raw < 256 ^ 8
      → (is : List (Instruction P)) × (ws : List HolderWrite) × Run is
          (write_transaction_to_holder_account operator loader holder hash send_transaction
            confirm_transaction raw).0
          (write_transaction_to_holder_account operator loader holder hash send_transaction
            confirm_transaction raw).1
        × (read_writes is ≡ map some ws)
        × (length ws ≡ (length raw + 919) / 920)
        × All (λ w. (0 < length w.payload) × (length w.payload ≤ chunk_size)) ws
  unfolding write_transaction_to_holder_account
  write_transaction-Run operator loader holder hash raw h32 small =
      let planned = send_writes operator loader holder hash raw in
      let wrote = send_writes-Wrote operator loader holder hash h32 raw small in
      (
        planned.0,
        chunks (length raw) hash 0 raw,
        built-Run planned.0 planned.1 wrote.ended,
        wrote.writes,
        chunks-count (length raw) hash 0 raw (omega arith),
        chunks-sizes (length raw) hash 0 raw,
      )
