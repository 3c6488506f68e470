-- ===== src/Networks.antt =====
-- deploy/cli/network_manager.py: the parameters of the networks, from envs.json and from the variables
-- of the environment. A network is the object of the file itself, so that what is stored in it stays.
pub mod Urls
mod Tests
use neon_tests.Prelude.{
  ℕ, zero, suc, ◌-◌, [], ◌∷◌, ◌++◌, List, Option, none, some, length, ◌==◌, ◌||◌, if◌then◌else◌,
  Bool, true, false,
}
use neon_tests.Prelude.Text.{Text, codes, text_eq, starts_with}
use neon_tests.Prelude.Dict.{Dict, lookup, put}
use neon_tests.Py.{Result, ok, err, or_raise, ◌>>=◌, key_error, type_error, runtime_error}

-- A value of the file: a text, an object, or something else.
mutual
  pub data Value : Type 0 where
    string : Text → Value
    object : Fields → Value
    other : Value

  pub data Fields : Type 0 where
    nil : Fields
    cons : Text → Value → Fields → Fields

-- `d.get(k)` and `d[k] = v` on the object of a network.
unfoldable pub find : Text → Fields → Option Value
find k nil = none
find k (cons j v fs) = if text_eq j k then some v else find k fs

unfoldable pub store : Text → Value → Fields → Fields
store k v nil = cons k v nil
store k v (cons j w fs) = if text_eq j k then cons j v fs else cons j w (store k v fs)

-- `s.replace(old, new)` behind `skip` characters, for an old text that is not empty.
unfoldable pub replace_from : ℕ → Text → Text → Text → Text
unfolding starts_with
replace_from skip old new [] = []
replace_from (suc skip) old new (c ∷ cs) = replace_from skip old new cs
replace_from zero old new (c ∷ cs) =
    let replaced = new ++ replace_from (length old - 1) old new cs in
    let plain = c ∷ replace_from zero old new cs in
    if starts_with (c ∷ cs) old then replaced else plain

abbrev pub replace : Text → Text → Text → Text
replace old new s = replace_from zero old new s

-- `os.environ.get(name)`, where an empty value does not count.
abbrev pub nonempty : Option Text → Option Text
nonempty none = none
nonempty (some []) = none
nonempty (some (c ∷ cs)) = some (c ∷ cs)

abbrev pub variable : Text → Dict Text → Option Text
variable name env = nonempty (lookup name env)

-- `os.environ.get(name, "")`
abbrev pub or_blank : Option Text → Text
or_blank none = []
or_blank (some t) = t

-- The object that stands for a network that is not in the file.
unfoldable pub dumped : Dict Text → Value
dumped env = object (
    cons (codes "proxy_url") (string (or_blank (lookup (codes "PROXY_URL") env))) (
      cons (codes "faucet_url") (string (or_blank (lookup (codes "FAUCET_URL") env))) (
        cons (codes "solana_url") (string (or_blank (lookup (codes "SOLANA_URL") env))) (
          cons (codes "network_ids")
            (object (cons (codes "neon") (string (or_blank (lookup (codes "NETWORK_ID") env))) nil))
            nil))))

-- `if name not in networks and os.environ.get("DUMP_ENVS")`
abbrev pub add_dumped : Dict Text → Text → Option Value → Option Text → Fields → Fields
add_dumped env name none (some d) networks = store name (dumped env) networks
add_dumped env name none none networks = networks
add_dumped env name (some v) d networks = networks

-- `networks[name][key] = value`
abbrev pub set_field : Text → Text → Option Value → Text → Fields → Result Fields
set_field name key none value networks = err key_error
set_field name key (some (object fs)) value networks =
    ok (store name (object (store key (string value) fs)) networks)
set_field name key (some (string t)) value networks = err type_error
set_field name key (some other) value networks = err type_error

-- A variable that has to be set, and the field that gets its value.
abbrev pub set_from : Text → Text → Option Text → Fields → Result Fields
set_from name key none networks = err runtime_error
set_from name key (some url) networks = set_field name key (find name networks) url networks

abbrev pub is_devnet : Text → Bool
is_devnet name = text_eq name (codes "devnet") || text_eq name (codes "tracer_ci")

unfoldable pub init : Dict Text → (file : Fields) → Text → Result Fields
unfolding find store dumped
init env file name =
    let networks = add_dumped env name (find name file) (variable (codes "DUMP_ENVS") env) file in
    if is_devnet name
    then (do
      with_faucet ←
          set_from name (codes "faucet_url") (variable (codes "DEVNET_FAUCET_URL") env) networks
      set_from name (codes "solana_url") (variable (codes "DEVNET_SOLANA_URL") env) with_faucet)
    else ok networks

-- `value[item]`
abbrev pub field_of : Value → Text → Result Value
field_of (object fs) k = or_raise (find k fs) key_error
field_of (string t) k = err type_error
field_of other k = err type_error

pub walk : Value → List Text → Result Value
unfolding find
walk v [] = ok v
walk v (k ∷ ks) = do w ← field_of v k; walk w ks

abbrev pub replace_ip : Text → Option Text → Text → Text
replace_ip mark none t = t
replace_ip mark (some ip) t = replace mark ip t

abbrev pub resolve_ips : Dict Text → Text → Text
resolve_ips env t =
    replace_ip (codes "<proxy_ip>") (variable (codes "PROXY_IP") env)
      (replace_ip (codes "<solana_ip>") (variable (codes "SOLANA_IP") env) t)

abbrev pub resolved : Dict Text → Value → Value
resolved env (string t) = string (resolve_ips env t)
resolved env (object fs) = object fs
resolved env other = other

abbrev pub walk_from : Option Value → List Text → Result Value
walk_from none items = ok (string [])
walk_from (some v) items = walk v items

-- The items of a dotted path are given, none for no path.
unfoldable pub get_network_param : Dict Text → Fields → Text → List Text → Result Value
unfolding walk replace_from
get_network_param env networks network items = do
  v ← walk_from (find network networks) items
  ok (resolved env v)

-- `network[key] = value`, which stays in the networks.
abbrev pub resolve_field : Dict Text → Text → Text → Fields → Result Fields
resolve_field env network key networks = do
  value ← get_network_param env networks network (key ∷ [])
  stored network key (find network networks) value networks
  where
    stored : Text → Text → Option Value → Value → Fields → Result Fields
    stored network key (some (object fs)) value networks =
        ok (store network (object (store key value fs)) networks)
    stored network key _ value networks = err type_error

-- The networks afterwards, and the network that is returned.
pub get_network_object : Dict Text → Fields → Text → Result (Fields × Value)
unfolding get_network_param find store
get_network_object env networks network_name = do
  networks' ←
      if text_eq network_name (codes "terraform")
      then (do
        a ← resolve_field env network_name (codes "proxy_url") networks
        b ← resolve_field env network_name (codes "solana_url") a
        resolve_field env network_name (codes "faucet_url") b)
      else ok networks
  network ← get_network_param env networks' network_name []
  ok (networks', network)
