-- ===== src/Load/Events/Fires.antt =====
-- What the collectors of the load tests fire.
use neon_tests.Prelude.{
  ℕ, ◌≡◌, refl, [], ◌∷◌, ◌++◌, Option, none, some, Bool, true, false, Bool-cases, inl, inr,
}
use neon_tests.Prelude.Text.{Text}
use neon_tests.Prelude.Dict.{lookup, put, without, lookup-put, put-put, without-put}
use neon_tests.Py.{Error, Result, ok, err, validation_error, system_exit}
use neon_tests.Load.Events.{
  Outcome, success, failure, is_exception, Event, RequestMeta, Handler, response_of, length_of,
  exception_of, request_type_of, init_event, fire_popped, fire_event, finish, outcome_of, returned,
  collect_named, collect, plain_outcome, proxy_collect,
}

module _ {R T E : Type 0} (elapsed : T → T → E) where
  -- The event of a call.
  abbrev pub event_of : Text → Text → T → T → Outcome R → RequestMeta R E
  event_of request_type task_name before after o = record {
    name = task_name;
    request_type = request_type;
    response = response_of (some o);
    response_time = elapsed before after;
    response_length = length_of (some o);
    exception = exception_of (some o);
  }

  fire_popped-found :
      (id : Text) (now : T) (h : Handler R T E) (found : Option (Event R T)) (e : Event R T)
      (o : Outcome R)
      → found ≡ some e
      → e.outcome ≡ some o
      → fire_popped elapsed id now h found ≡ (
        record {
          buffer = without id h.buffer;
          fired = h.fired ++ event_of e.request_type e.name e.start_perf_counter now o ∷ [];
        },
        ok tt,
      )
  fire_popped-found id now h found e o f g = rw (f, g) refl

  -- A task that is new leaves the buffer as it was, and one event behind the others.
  pub finish-init_event :
      (id request_type task_name : Text) (o : Outcome R) (start before after : T)
      (h : Handler R T E)
      → lookup id h.buffer ≡ none
      → finish elapsed id o after (init_event elapsed id request_type task_name start before h) ≡ (
        record {
          buffer = h.buffer;
          fired = h.fired ++ event_of request_type task_name before after o ∷ [];
        },
        ok tt,
      )
  unfolding finish fire_event init_event
  finish-init_event id request_type task_name o start before after h new =
      let e : Event R T = record {
        name = task_name;
        start_time = start;
        request_type = request_type;
        start_perf_counter = before;
        outcome = none;
      } in
      let e' : Event R T = record e { outcome = some o } in
      rw
        (
          lookup-put id e h.buffer,
          lookup-put id e' (put id e h.buffer),
          put-put id e e' h.buffer,
          without-put id e' h.buffer new,
        )
        refl

  module _ (size : R → ℕ) (has_error : R → Bool) where
    -- What an event tells of a call: its exception, an exception for an answer with an error, or the
    -- answer and its size.
    pub data Tells : Result R → Outcome R → Type 0 where
      raised : (e : Error) → is_exception e ≡ true → Tells (err e) (failure e)
      refused : (r : R) → has_error r ≡ true → Tells (ok r) (failure validation_error)
      answered : (r : R) → has_error r ≡ false → Tells (ok r) (success r (size r))

    -- The end of a call that is no exit of the interpreter.
    abbrev pub IsCaught : Result R → Type 0
    IsCaught (err e) = is_exception e ≡ true
    IsCaught (ok r) = Unit

    -- What the collector leaves and returns.
    abbrev pub one_fired :
        Text
        → Text
        → T
        → T
        → Outcome R
        → Result R
        → Handler R T E
        → Handler R T E × Result (Option R)
    one_fired request_type task_name before after o call h = (
      record {
        buffer = h.buffer;
        fired = h.fired ++ event_of request_type task_name before after o ∷ [];
      },
      ok (returned elapsed size has_error call),
    )

    outcome_of-Tells :
        (call : Result R) → IsCaught call → Tells call (outcome_of elapsed size has_error call)
    outcome_of-Tells (err e) h = raised e h
    outcome_of-Tells (ok r) h = elim (Bool-cases (has_error r)) [
      | inl e ↦ rw e (refused r e)
      | inr e ↦ rw e (answered r e)
    ]

    collect_named-fires :
        (id request_type task_name : Text) (call : Result R) (start before after : T)
        (h : Handler R T E)
        → lookup id h.buffer ≡ none
        → IsCaught call
        → collect_named elapsed size has_error id request_type task_name call start before after h
          ≡ one_fired request_type task_name before after
              (outcome_of elapsed size has_error call)
              call
              h
    unfolding collect_named
    collect_named-fires id request_type task_name (ok r) start before after h new caught =
        rw
          (finish-init_event id request_type task_name (outcome_of elapsed size has_error (ok r))
            start before after h new)
          refl
    collect_named-fires id request_type task_name (err e) start before after h new caught =
        rw
          (caught, finish-init_event id request_type task_name (failure e) start before after h new)
          refl

    -- For a method with a request type, for a task that is new, and for a call that returns or ends with
    -- an exception that is no exit of the interpreter, the collector of the tracer's tests fires one
    -- event, whose time is that of the call, leaves the buffer as it was, and returns: nothing if the
    -- call raised, and otherwise what the call returned. The event tells of the exception, of a
    -- validation error for an answer with an error, and otherwise of the answer and its size.
    pub collect-fires :
        (id method request_type req_type : Text) (call : Result R) (start before after : T)
        (h : Handler R T E)
        → request_type_of method ≡ ok request_type
        → lookup id h.buffer ≡ none
        → IsCaught call
        → (o : Outcome R) × Tells call o
          × (collect elapsed size has_error id method (some req_type) call start before after h
              ≡ one_fired request_type (91 ∷ req_type ++ 93 ∷ []) before after o call h)
    unfolding collect
    collect-fires id method request_type req_type call start before after h typed new caught = (
      outcome_of elapsed size has_error call,
      outcome_of-Tells call caught,
      rw typed (
          collect_named-fires id request_type (91 ∷ req_type ++ 93 ∷ []) call start before after h
            new caught),
    )

    -- After an exit of the interpreter no event is fired, the task stays in the buffer, and the exit
    -- goes on.
    collect_named-exit :
        (id request_type task_name : Text) (start before after : T) (h : Handler R T E)
        → collect_named elapsed size has_error id request_type task_name
            (err system_exit)
            start
            before
            after
            h
          ≡ (init_event elapsed id request_type task_name start before h, err system_exit)
    unfolding collect_named
    collect_named-exit id request_type task_name start before after h = refl

    -- The collector of the proxy's tests.
    pub proxy_collect-fires :
        (id request_type : Text) (call : Result R) (start before after : T) (h : Handler R T E)
        → lookup id h.buffer ≡ none
        → IsCaught call
        → proxy_collect elapsed size id request_type call start before after h ≡ (
          record {
            buffer = h.buffer;
            fired =
                h.fired
                ++ event_of request_type [] before after (plain_outcome elapsed size call) ∷ [];
          },
          call,
        )
    unfolding proxy_collect
    proxy_collect-fires id request_type (ok r) start before after h new caught =
        rw
          (finish-init_event id request_type [] (plain_outcome elapsed size (ok r)) start before
            after h new)
          refl
    proxy_collect-fires id request_type (err e) start before after h new caught =
        rw (caught, finish-init_event id request_type [] (failure e) start before after h new) refl
