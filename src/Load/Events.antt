-- ===== src/Load/Events.antt =====
-- The statistics of the load tests: `LocustEventHandler` and `statistics_collector` of
-- loadtesting/tracerapi/locustfile.py, and the collector of loadtesting/proxy/common/events.py.
-- Instants, what lies between two of them, and the size of an object are given, as are the ids. An
-- exit of the interpreter is no `Exception`, and no collector catches it.
pub mod Fires
use neon_tests.Prelude.{
  ℕ, suc, zero, ◌+◌, [], ◌∷◌, ◌++◌, List, Option, none, some, ◌==◌, if◌then◌else◌, Bool, true,
  false,
}
use neon_tests.Prelude.Text.{Text, codes}
use neon_tests.Prelude.Dict.{Dict, lookup, put, without}
use neon_tests.Py.{
  Error, Result, ok, err, or_raise, ◌>>=◌, key_error, index_error, validation_error, system_exit,
}

-- What the second dictionary of an event holds.
pub data Outcome (R : Type 0) : Type 0 where
  success : R → ℕ → Outcome R
  failure : Error → Outcome R

-- An entry of the buffer: the parameters of `init_event`, and what `update` added.
pub record Event (R : Type 0) (T : Type 0) : Type 0 where
  pub name : Text
  pub start_time : T
  pub request_type : Text
  pub start_perf_counter : T
  pub outcome : Option (Outcome R)

-- The arguments of `self._request_event.fire`.
pub record RequestMeta (R : Type 0) (E : Type 0) : Type 0 where
  pub name : Text
  pub request_type : Text
  pub response : Option R
  pub response_time : E
  pub response_length : ℕ
  pub exception : Option Error

pub record Handler (R : Type 0) (T : Type 0) (E : Type 0) : Type 0 where
  pub buffer : Dict (Event R T)
  pub fired : List (RequestMeta R E)

-- `event.get("response")`, `event.get("response_length", 0)` and `event.get("exception")`
abbrev pub response_of : {R : Type 0} → Option (Outcome R) → Option R
response_of none = none
response_of (some (success r n)) = some r
response_of (some (failure e)) = none

abbrev pub length_of : {R : Type 0} → Option (Outcome R) → ℕ
length_of none = 0
length_of (some (success r n)) = n
length_of (some (failure e)) = 0

abbrev pub exception_of : {R : Type 0} → Option (Outcome R) → Option Error
exception_of none = none
exception_of (some (success r n)) = none
exception_of (some (failure e)) = some e

-- The pieces of `s.split("_")`, given what was read of the first one.
pub split_at : ℕ → Text → Text → List Text
split_at by piece [] = piece ∷ []
split_at by piece (c ∷ cs) =
    let next = split_at by [] cs in
    let longer = split_at by (piece ++ c ∷ []) cs in if c == by then piece ∷ next else longer

abbrev pub second : List Text → Option Text
second [] = none
second (x ∷ []) = none
second (x ∷ y ∷ xs) = some y

-- f"`{args[1].rsplit('_')[1]}`"
unfoldable pub request_type_of : Text → Result Text
unfolding split_at
request_type_of method = do
  word ← or_raise (second (split_at 95 [] method)) index_error
  ok (96 ∷ word ++ 96 ∷ [])

-- f"[{kwargs.pop('req_type')}]"
abbrev pub task_name_of : Option Text → Result Text
task_name_of none = err key_error
task_name_of (some t) = ok (91 ∷ t ++ 93 ∷ [])

-- `except Exception`
abbrev pub is_exception : Error → Bool
is_exception system_exit = false
is_exception _ = true

module _ {R T E : Type 0} (elapsed : T → T → E) where
  -- `start` is the given instant or that of the call, and `counter` the performance counter.
  unfoldable pub init_event : Text → Text → Text → T → T → Handler R T E → Handler R T E
  init_event task_id request_type task_name start counter h = record h {
    buffer =
        put task_id
          (record {
            name = task_name;
            start_time = start;
            request_type = request_type;
            start_perf_counter = counter;
            outcome = none;
          })
          h.buffer;
  }

  -- `self.buffer[task_id].update(event)`
  abbrev pub update_event : Text → Outcome R → Handler R T E → Option (Event R T) → Handler R T E
  update_event task_id o h none = h
  update_event task_id o h (some e) = record h {
    buffer = put task_id (record e { outcome = some o }) h.buffer;
  }

  abbrev pub meta_of : T → Event R T → RequestMeta R E
  meta_of now e = record {
    name = e.name;
    request_type = e.request_type;
    response = response_of e.outcome;
    response_time = elapsed e.start_perf_counter now;
    response_length = length_of e.outcome;
    exception = exception_of e.outcome;
  }

  -- The log message at the end reads the type of the event.
  abbrev pub logged : Option (Outcome R) → Result (Unit {0})
  logged none = err key_error
  logged (some o) = ok tt

  abbrev pub fire_popped :
      Text → T → Handler R T E → Option (Event R T) → Handler R T E × Result (Unit {0})
  fire_popped task_id now h none = (h, err key_error)
  fire_popped task_id now h (some e) = (
    record { buffer = without task_id h.buffer; fired = h.fired ++ meta_of now e ∷ [] },
    logged e.outcome,
  )

  unfoldable pub fire_event : Text → T → Handler R T E → Handler R T E × Result (Unit {0})
  fire_event task_id now h = fire_popped task_id now h (lookup task_id h.buffer)

  -- The end of a collector: the outcome is stored and the event fired.
  unfoldable pub finish : Text → Outcome R → T → Handler R T E → Handler R T E × Result (Unit {0})
  unfolding fire_event
  finish task_id o now h =
      fire_event task_id now (update_event task_id o h (lookup task_id h.buffer))

  module _ (size : R → ℕ) (has_error : R → Bool) where
    -- An answer that tells of an error is a failure, and is returned nevertheless.
    abbrev pub outcome_of : Result R → Outcome R
    outcome_of (err e) = failure e
    outcome_of (ok r) = if has_error r then failure validation_error else success r (size r)

    abbrev pub returned : Result R → Option R
    returned (err e) = none
    returned (ok r) = some r

    abbrev pub collected : {H : Type 0} → Result R → H × Result (Unit {0}) → H × Result (Option R)
    collected call (h, err e) = (h, err e)
    collected call (h, ok u) = (h, ok (returned call))

    -- The call after `init_event`: an exception of it is not passed on, and any other end of it is, with
    -- the event left in the buffer.
    abbrev pub after_call : Text → Result R → T → Handler R T E → Handler R T E × Result (Option R)
    after_call task_id (ok r) after h =
        collected (ok r) (finish task_id (outcome_of (ok r)) after h)
    after_call task_id (err e) after h =
        if is_exception e
        then collected (err e) (finish task_id (outcome_of (err e)) after h)
        else (h, err e)

    -- `wrap`, around a call that ends as `call` does.
    unfoldable pub collect_named :
        Text
        → Text
        → Text
        → Result R
        → T
        → T
        → T
        → Handler R T E
        → Handler R T E × Result (Option R)
    unfolding init_event finish
    collect_named task_id request_type task_name call start before after h =
        after_call task_id call after (init_event task_id request_type task_name start before h)

    abbrev pub collect_if :
        Text
        → Result R
        → T
        → T
        → T
        → Handler R T E
        → Result (Text × Text)
        → Handler R T E × Result (Option R)
    collect_if task_id call start before after h (err e) = (h, err e)
    collect_if task_id call start before after h (ok names) =
        collect_named task_id names.0 names.1 call start before after h

    pub collect :
        Text
        → Text
        → Option Text
        → Result R
        → T
        → T
        → T
        → Handler R T E
        → Handler R T E × Result (Option R)
    unfolding request_type_of
    collect task_id method req_type call start before after h =
        collect_if task_id call start before after h (do
          request_type ← request_type_of method
          task_name ← task_name_of req_type
          ok (request_type, task_name))

  -- The collector of the proxy's tests counts only exceptions as failures, and raises them again.
  abbrev pub raised_or : {H : Type 0} → Result R → H × Result (Unit {0}) → H × Result R
  raised_or call (h, err e) = (h, err e)
  raised_or call (h, ok u) = (h, call)

  abbrev pub plain_outcome : (R → ℕ) → Result R → Outcome R
  plain_outcome size (err e) = failure e
  plain_outcome size (ok r) = success r (size r)

  abbrev pub after_proxy_call :
      (R → ℕ) → Text → Result R → T → Handler R T E → Handler R T E × Result R
  after_proxy_call size task_id (ok r) after h =
      raised_or (ok r) (finish task_id (plain_outcome size (ok r)) after h)
  after_proxy_call size task_id (err e) after h =
      if is_exception e
      then raised_or (err e) (finish task_id (plain_outcome size (err e)) after h)
      else (h, err e)

  pub proxy_collect :
      (R → ℕ) → Text → Text → Result R → T → T → T → Handler R T E → Handler R T E × Result R
  unfolding init_event finish
  proxy_collect size task_id request_type call start before after h =
      after_proxy_call size task_id call after (init_event task_id request_type [] start before h)
