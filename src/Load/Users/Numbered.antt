-- ===== src/Load/Users/Numbered.antt =====
-- The ids of the users of a test, and what a second test of the same process meets.
use neon_tests.Prelude.{
  ℕ, suc, zero, ◌+◌, ◌≡◌, refl, ap, ◌∙◌, [], ◌∷◌, List, Option, none, some, true, false, replicate,
}
use neon_tests.Prelude.Text.{Text, codes}
use neon_tests.Prelude.Dict.{Dict, lookup}
use neon_tests.Py.{Result, ok, err, attribute_error}
use neon_tests.Load.Tracer.{History, Stored}
use neon_tests.Load.Users.{
  Setting, Users, User, no_users, test_start, endpoint_or, setup_class, new_user, counted, on_start,
  start_all,
}

module _ (setting : Setting) where
  abbrev pub user_of : Option Text → Text → ℕ → User
  user_of endpoint url id = record {
    rpc_consumer_id = id;
    endpoint = endpoint;
    pool_size = setting.pool_size;
    proxy_url = url;
  }

  -- The users whose ids follow `k`.
  abbrev pub numbered : Option Text → Text → ℕ → ℕ → List (Result User)
  numbered endpoint url zero k = []
  numbered endpoint url (suc n) k =
      ok (user_of endpoint url (k + 1)) ∷ numbered endpoint url n (k + 1)

  new_user-ready :
      (url : Text) (endpoint : Option Text) (s : Users)
      → lookup (codes "proxy_url") setting.credentials ≡ some url
      → s.rpc_endpoint ≡ some endpoint
      → new_user setting s ≡ ok (user_of endpoint url s.last_consumer_id)
  new_user-ready url endpoint s has to = rw (to, has) refl

  -- A start where the class is set up.
  set_up-start :
      (s : Users)
      → s.setup_done ≡ true
      → on_start setting s ≡ (counted setting s, new_user setting (counted setting s))
  unfolding on_start
  set_up-start s h = rw h refl

  ready-numbered :
      (url : Text) (endpoint : Option Text) (n : ℕ) (s : Users)
      → lookup (codes "proxy_url") setting.credentials ≡ some url
      → s.setup_done ≡ true
      → s.rpc_endpoint ≡ some endpoint
      → (start_all setting n s).1 ≡ numbered endpoint url n s.last_consumer_id
  unfolding start_all
  ready-numbered url endpoint zero s has done to = refl
  ready-numbered url endpoint (suc n) s has done to =
      let rest = ready-numbered url endpoint n (counted setting s) has done to in
      let user = new_user-ready url endpoint (counted setting s) has to in
      ap (λ p. p.1 ∷ (start_all setting n p.0).1) (set_up-start s done) ∙ (λ i. user i ∷ rest i)

  -- The state after the first start.
  abbrev first : ℕ → (Text × Dict (List Stored)) → History → Users
  first k d ds = record {
    setup_done = true;
    last_consumer_id = k + 1;
    class_history = some (d ∷ ds);
    history = some (d ∷ ds);
    rpc_endpoint = some (endpoint_or setting setting.tracing_url);
  }

  first-start :
      (url : Text) (d : Text × Dict (List Stored)) (ds : History) (s : Users)
      → lookup (codes "proxy_url") setting.credentials ≡ some url
      → setting.dumped ≡ some (d ∷ ds)
      → s.setup_done ≡ false
      → on_start setting (test_start setting s) ≡ (
        first s.last_consumer_id d ds,
        ok (user_of (endpoint_or setting setting.tracing_url) url (s.last_consumer_id + 1)),
      )
  unfolding on_start setup_class test_start
  first-start url d ds s has dumped fresh = rw (fresh, dumped, has) refl

  -- In the first test of a process, with a history that is not empty and a proxy in the credentials,
  -- every user starts, and the users have the ids that follow the last one, in the order of their
  -- starts, and all the same endpoint: that of `NEON_TRACING_URL`, or else the proxy.
  pub start_all-numbered :
      (url : Text) (d : Text × Dict (List Stored)) (ds : History) (s : Users) (n : ℕ)
      → lookup (codes "proxy_url") setting.credentials ≡ some url
      → setting.dumped ≡ some (d ∷ ds)
      → s.setup_done ≡ false
      → (start_all setting n (test_start setting s)).1
        ≡ numbered (endpoint_or setting setting.tracing_url) url n s.last_consumer_id
  unfolding start_all
  start_all-numbered url d ds s zero has dumped fresh = refl
  start_all-numbered url d ds s (suc n) has dumped fresh =
      ap (λ p. p.1 ∷ (start_all setting n p.0).1) (first-start url d ds s has dumped fresh)
      ∙ ap
          (λ us.
            ok (user_of (endpoint_or setting setting.tracing_url) url (s.last_consumer_id + 1))
            ∷ us)
          (ready-numbered url (endpoint_or setting setting.tracing_url) n
            (first s.last_consumer_id d ds) has refl refl)

  on_start-restarted :
      (s : Users)
      → s.setup_done ≡ true
      → s.rpc_endpoint ≡ none
      → on_start setting s ≡ (counted setting s, err attribute_error)
  unfolding on_start
  on_start-restarted s done gone = rw (done, gone) refl

  restarted-fails :
      (m : ℕ) (s : Users)
      → s.setup_done ≡ true
      → s.rpc_endpoint ≡ none
      → (start_all setting m s).1 ≡ replicate m (err attribute_error)
  unfolding start_all
  restarted-fails zero s done gone = refl
  restarted-fails (suc m) s done gone =
      ap (λ p. p.1 ∷ (start_all setting m p.0).1) (on_start-restarted s done gone)
      ∙ ap (λ us. err attribute_error ∷ us) (restarted-fails m (counted setting s) done gone)

  on_start-keeps_done : (s : Users) → s.setup_done ≡ true → (on_start setting s).0.setup_done ≡ true
  unfolding on_start
  on_start-keeps_done s done = rw done refl

  start_all-keeps_done :
      (n : ℕ) (s : Users) → s.setup_done ≡ true → (start_all setting n s).0.setup_done ≡ true
  unfolding start_all
  start_all-keeps_done zero s done = done
  start_all-keeps_done (suc n) s done =
      start_all-keeps_done n (on_start setting s).0 (on_start-keeps_done s done)

  start_all-done :
      (url : Text) (d : Text × Dict (List Stored)) (ds : History) (n : ℕ) (s : Users)
      → lookup (codes "proxy_url") setting.credentials ≡ some url
      → setting.dumped ≡ some (d ∷ ds)
      → s.setup_done ≡ false
      → (start_all setting (suc n) (test_start setting s)).0.setup_done ≡ true
  unfolding start_all
  start_all-done url d ds n s has dumped fresh =
      rw (first-start url d ds s has dumped fresh)
        (start_all-keeps_done n (first s.last_consumer_id d ds) refl)

  -- With a history that is not empty and a proxy in the credentials, once a user of a first test has
  -- started, no user of a second test of the process starts: the flag of the class is still set, and
  -- the new environment has no endpoint.
  pub start_all-restarted :
      (url : Text) (d : Text × Dict (List Stored)) (ds : History) (n m : ℕ)
      → lookup (codes "proxy_url") setting.credentials ≡ some url
      → setting.dumped ≡ some (d ∷ ds)
      → (start_all setting m
          (test_start setting (start_all setting (suc n) (test_start setting no_users)).0)).1
        ≡ replicate m (err attribute_error)
  unfolding test_start
  start_all-restarted url d ds n m has dumped =
      restarted-fails m
        (test_start setting (start_all setting (suc n) (test_start setting no_users)).0)
        (start_all-done url d ds n no_users has dumped refl) refl
