-- ===== src/Networks/Urls.antt =====
-- The URLs of the networks whose nodes are shared.
use neon_tests.Prelude.{
  ◌≡◌, refl, ap, sym, ◌∙◌, [], ◌∷◌, Option, none, some, true, false, inl, inr, Bool-cases,
}
use neon_tests.Prelude.Text.{Text, codes, text_eq}
use neon_tests.Prelude.Dict.{Dict, text_eq_refl, text_eq_other}
use neon_tests.Py.{ok, >>=-eq-ok, ok_injective}
use neon_tests.Networks.{
  Value, string, object, other, Fields, nil, cons, find, store, variable, add_dumped, set_field,
  set_from, is_devnet, init, walk, resolve_ips, get_network_param,
}

find-store : (k : Text) (v : Value) (fs : Fields) → find k (store k v fs) ≡ some v
unfolding find store
find-store k v nil = rw (text_eq_refl k) refl
find-store k v (cons j w fs) = elim (Bool-cases (text_eq j k)) [
  | inl e ↦ rw (e, e) refl
  | inr e ↦ rw (e, e) (find-store k v fs)
]

find-store_other :
    (k m : Text) (v : Value) (fs : Fields) → text_eq k m ≡ false → find m (store k v fs) ≡ find m fs
unfolding find store
find-store_other k m v nil f = rw f refl
find-store_other k m v (cons j w fs) f = elim (Bool-cases (text_eq j k)) [
  | inl e ↦ rw (e, text_eq_other j k m e f) refl
  | inr e ↦ elim (Bool-cases (text_eq j m)) [
    | inl g ↦ rw (e, g) refl
    | inr g ↦ rw (e, g) (find-store_other k m v fs f)
  ]
]

-- What a variable that was set did to the networks.
abbrev IsWritten : Text → Text → Option Text → Fields → Fields → Type 0
IsWritten name key v before after =
    (url : Text) × (fs : Fields) × (v ≡ some url)
    × (find name before ≡ some (object fs))
    × (after ≡ store name (object (store key (string url) fs)) before)

set_field-IsWritten :
    (name key url : Text) (found : Option Value) (before after : Fields)
    → set_field name key found url before ≡ ok after
    → (fs : Fields) × (found ≡ some (object fs))
      × (after ≡ store name (object (store key (string url) fs)) before)
set_field-IsWritten name key url none before after h = cc
set_field-IsWritten name key url (some (object fs)) before after h =
    (fs, refl, sym (ok_injective h))
set_field-IsWritten name key url (some (string t)) before after h = cc
set_field-IsWritten name key url (some other) before after h = cc

set_from-IsWritten :
    (name key : Text) (v : Option Text) (before after : Fields)
    → set_from name key v before ≡ ok after
    → IsWritten name key v before after
set_from-IsWritten name key none before after h = cc
set_from-IsWritten name key (some url) before after h =
    let (fs, found, is) = set_field-IsWritten name key url (find name before) before after h in
    (url, fs, refl, found, is)

-- The parameter of a network that is an object.
get_network_param-found :
    (env : Dict Text) (networks : Fields) (name key : Text) (fs : Fields) (t : Text)
    → find name networks ≡ some (object fs)
    → find key fs ≡ some (string t)
    → get_network_param env networks name (key ∷ []) ≡ ok (string (resolve_ips env t))
unfolding get_network_param walk
get_network_param-found env networks name key fs t found field = rw (found, field) refl

object_injective : {fs gs : Fields} → some (object fs) ≡ some (object gs) → fs ≡ gs
object_injective e = cc

-- If the networks of a run on devnet or for the tracer are read, the URLs of the faucet and of Solana
-- are set in the environment, and they are what the network's parameters then give, with the IPs in
-- place of their marks; whatever the file has for them.
pub init-devnet :
    (env : Dict Text) (file networks : Fields) (name : Text)
    → is_devnet name ≡ true
    → init env file name ≡ ok networks
    → (faucet solana : Text) × (variable (codes "DEVNET_FAUCET_URL") env ≡ some faucet)
      × (variable (codes "DEVNET_SOLANA_URL") env ≡ some solana)
      × (get_network_param env networks name (codes "faucet_url" ∷ [])
          ≡ ok (string (resolve_ips env faucet)))
      × (get_network_param env networks name (codes "solana_url" ∷ [])
          ≡ ok (string (resolve_ips env solana)))
unfolding init
init-devnet env file networks name dev h =
    let base = add_dumped env name (find name file) (variable (codes "DUMP_ENVS") env) file in
    let both = rw dev at h in
    let (first, set_faucet, set_solana) =
      >>=-eq-ok (set_from name (codes "faucet_url") (variable (codes "DEVNET_FAUCET_URL") env) base)
        _ both in
    let (faucet, fs, faucet_is, found, is) =
      set_from-IsWritten name (codes "faucet_url") _ base first set_faucet in
    let (solana, gs, solana_is, found', is') =
      set_from-IsWritten name (codes "solana_url") _ first networks set_solana in
    let same : store (codes "faucet_url") (string faucet) fs ≡ gs = object_injective (
      sym (
        ap (find name) is
        ∙ find-store name (object (store (codes "faucet_url") (string faucet) fs)) base)
      ∙ found') in
    let there =
      ap (find name) is'
      ∙ find-store name (object (store (codes "solana_url") (string solana) gs)) first in
    (
      faucet,
      solana,
      faucet_is,
      solana_is,
      get_network_param-found env networks name (codes "faucet_url") _ faucet there (
          find-store_other (codes "solana_url") (codes "faucet_url") (string solana) gs refl
          ∙ ap (find (codes "faucet_url")) (sym same)
          ∙ find-store (codes "faucet_url") (string faucet) fs),
      get_network_param-found env networks name (codes "solana_url") _ solana there
          (find-store (codes "solana_url") (string solana) gs),
    )
