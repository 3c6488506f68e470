-- ===== src/Load/Users.antt =====
-- How the users of loadtesting/tracerapi/locustfile.py start: the state of their class, which all of
-- them share, and that of the environment. The lock makes every start one step.
pub mod Numbered
use neon_tests.Prelude.{ℕ, suc, ◌+◌, [], ◌∷◌, List, Option, none, some, Bool, true, false}
use neon_tests.Prelude.Text.{Text, codes}
use neon_tests.Prelude.Dict.{Dict, lookup}
use neon_tests.Py.{Result, ok, err, or_raise, ◌>>=◌, key_error, attribute_error, system_exit}
use neon_tests.Load.Tracer.{History}

-- What does not change during a test: the variable `NEON_TRACING_URL`, the credentials, the file of
-- the history, and the size of the connection pools.
pub record Setting : Type 0 where
  pub tracing_url : Text
  pub credentials : Dict Text
  pub dumped : Option History
  pub pool_size : ℕ

-- The attributes of the class, and those of `environment.shared`, of which `rpc_endpoint` may not be
-- there yet.
pub record Users : Type 0 where
  pub setup_done : Bool
  pub last_consumer_id : ℕ
  pub class_history : Option History
  pub history : Option History
  pub rpc_endpoint : Option (Option Text)

pub record User : Type 0 where
  pub rpc_consumer_id : ℕ
  pub endpoint : Option Text
  pub pool_size : ℕ
  pub proxy_url : Text

abbrev pub no_users : Users
no_users = record {
  setup_done = false;
  last_consumer_id = 0;
  class_history = none;
  history = none;
  rpc_endpoint = none;
}

module _ (setting : Setting) where
  -- The two listeners of the start of a test: a new shared environment, and the history of the file.
  unfoldable pub test_start : Users → Users
  test_start s = record s { history = setting.dumped; rpc_endpoint = none }

  abbrev pub endpoint_or : Text → Option Text
  endpoint_or [] = lookup (codes "proxy_url") setting.credentials
  endpoint_or (c ∷ cs) = some (c ∷ cs)

  -- `if not history_data`: an empty history does not count either.
  abbrev pub with_history : Option History → Users → Users × Result (Unit {0})
  with_history none s = (s, err system_exit)
  with_history (some []) s = (s, err system_exit)
  with_history (some (d ∷ ds)) s = (
    record s {
      class_history = some (d ∷ ds);
      rpc_endpoint = some (endpoint_or setting.tracing_url);
    },
    ok tt,
  )

  unfoldable pub setup_class : Users → Users × Result (Unit {0})
  setup_class s = with_history s.history s

  abbrev pub set_done : Users × Result (Unit {0}) → Users × Result (Unit {0})
  set_done (s, err e) = (s, err e)
  set_done (s, ok u) = (record s { setup_done = true }, ok tt)

  -- `if not BaseEthRPCATasksSet._setup_class_done`
  abbrev pub set_up : Bool → Users → Users × Result (Unit {0})
  set_up true s = (s, ok tt)
  set_up false s = set_done (setup_class s)

  abbrev pub new_user : Users → Result User
  new_user s = do
    endpoint ← or_raise s.rpc_endpoint attribute_error
    proxy_url ← or_raise (lookup (codes "proxy_url") setting.credentials) key_error
    ok (record {
      rpc_consumer_id = s.last_consumer_id;
      endpoint = endpoint;
      pool_size = setting.pool_size;
      proxy_url = proxy_url;
    })

  abbrev pub counted : Users → Users
  counted s = record s { last_consumer_id = s.last_consumer_id + 1 }

  abbrev pub started : Users × Result (Unit {0}) → Users × Result User
  started (s, err e) = (s, err e)
  started (s, ok u) = (counted s, new_user (counted s))

  unfoldable pub on_start : Users → Users × Result User
  unfolding setup_class
  on_start s = started (set_up s.setup_done s)

  -- Some users, one after the other.
  pub start_all : ℕ → Users → Users × List (Result User)
  unfolding on_start
  start_all ℕ.zero s = (s, [])
  start_all (suc n) s =
      let (s', user) = on_start s in let (s'', users) = start_all n s' in (s'', user ∷ users)
