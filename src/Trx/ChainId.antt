-- ===== src/Trx/ChainId.antt =====
-- The chain id that `v` carries, and what the signed message holds.
use neon_tests.Prelude.{ℕ, suc, ◌+◌, ◌*◌, ◌/◌, ◌<◌, ◌≡◌, refl, sym, Option, none, some, arith}
use neon_tests.Prelude.Int.{ℤ, pos}
use neon_tests.Py.{ok, ◌>>=◌, bind_assoc}
use neon_tests.Py.Bytes.{Bytes}
use neon_tests.Rlp.{pack}
use neon_tests.Trx.{Trx, chain_id_of, chain_id, chain_or, msg_fields, get_msg, hash}

chain_id_of-suc : (n c : ℕ) → n / 2 ≡ c + 17 → chain_id_of (pos (suc n)) ≡ pos c
unfolding chain_id_of
chain_id_of-suc n c h = ground arith

-- `v = 2 * chain + 35 + parity` gives the chain id back.
pub chain_id_of-eip155 : (c p : ℕ) → p < 2 → chain_id_of (pos (2 * c + 35 + p)) ≡ pos c
chain_id_of-eip155 c p h =
    let e : 2 * c + 35 + p ≡ suc (2 * c + 34 + p) = omega arith in
    rw e (chain_id_of-suc (2 * c + 34 + p) c (omega arith))

-- A transaction whose `v` was made from a chain id above 0 and a parity bit has that chain id, and
-- the signed message without an explicit chain id is that with this one.
pub get_msg-eip155 :
    (t : Trx) (c p : ℕ)
    → p < 2
    → t.v ≡ some (pos (2 * suc c + 35 + p))
    → (chain_id t ≡ ok (pos (suc c))) × (get_msg t none ≡ get_msg t (some (pos (suc c))))
unfolding chain_id get_msg
get_msg-eip155 t c p h e = rw (e, chain_id_of-eip155 (suc c) p h) (refl, refl)

-- `hash` is the digest of `get_msg`, and raises where that raises.
pub hash-get_msg :
    (keccak : Bytes → Bytes) (t : Trx) (chain : Option ℤ)
    → hash keccak t chain ≡ (do m ← get_msg t chain; ok (keccak m))
unfolding hash get_msg
hash-get_msg keccak t chain =
    sym (bind_assoc (chain_or chain t) (λ c. pack (msg_fields t c)) (λ m. ok (keccak m)))
