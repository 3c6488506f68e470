-- ===== src/Models/Results/Events.antt =====
-- The events of a transaction, against the list of all of its logs.
use neon_tests.Prelude.{
  ◌≡◌, refl, ap, sym, subst, ◌∙◌, [], ◌∷◌, ◌++◌, List, Option, map, All, ◌&&◌, not, Bool, true,
  false,
}
use neon_tests.Results.Order.{keep, keep-append, keep-passes}
use neon_tests.Results.PreviousTags.{is_among}
use neon_tests.Models.Results.{
  NeonEventType, value, Event, SolanaInstruction, SolanaTransaction, NeonReceipt, has_type,
  is_removed, is_wanted, instruction_events, transaction_events, get_all_events,
}

-- All logs of some instructions, and of some transactions, in order.
abbrev pub logs_of : List SolanaInstruction → List Event
logs_of [] = []
logs_of (i ∷ is) = i.neon_logs ++ logs_of is

abbrev pub all_logs : List SolanaTransaction → List Event
all_logs [] = []
all_logs (t ∷ ts) = logs_of t.solana_instructions ++ all_logs ts

instruction_events-keep :
    (p : Event → Bool) (is : List SolanaInstruction) → instruction_events p is ≡ keep p (logs_of is)
unfolding instruction_events keep
instruction_events-keep p [] = refl
instruction_events-keep p (i ∷ is) =
    ap (λ es. keep p i.neon_logs ++ es) (instruction_events-keep p is)
    ∙ sym (keep-append p i.neon_logs (logs_of is))

transaction_events-keep :
    (p : Event → Bool) (ts : List SolanaTransaction)
    → transaction_events p ts ≡ keep p (all_logs ts)
unfolding transaction_events keep
transaction_events-keep p [] = refl
transaction_events-keep p (t ∷ ts) =
    (λ k. instruction_events-keep p t.solana_instructions k ++ transaction_events-keep p ts k)
    ∙ sym (keep-append p (logs_of t.solana_instructions) (all_logs ts))

and-true : (a b c : Bool) → (a && b && c) ≡ true → (a ≡ true) × (b ≡ true) × (c ≡ true)
and-true true true true h = (refl, refl, refl)
and-true true true false h = cc
and-true true false c h = cc
and-true false b c h = cc

not-true : (b : Bool) → not b ≡ true → b ≡ false
not-true true h = cc
not-true false h = refl

-- What an event has that is returned.
abbrev pub IsWanted : Option NeonEventType → List NeonEventType → Option Bool → Event → Type 0
IsWanted filter ignore removed e =
    (has_type filter e ≡ true)
    × (is_among (map value ignore) e.neon_event_type ≡ false)
    × (is_removed removed e ≡ true)

All-IsWanted :
    (filter : Option NeonEventType) (ignore : List NeonEventType) (removed : Option Bool)
    (es : List Event)
    → All (λ e. is_wanted filter (map value ignore) removed e ≡ true) es
    → All (IsWanted filter ignore removed) es
unfolding is_wanted
All-IsWanted filter ignore removed [] h = tt
All-IsWanted filter ignore removed (e ∷ es) (h, hs) =
    let (a, b, c) =
      and-true (has_type filter e) (not (is_among (map value ignore) e.neon_event_type))
        (is_removed removed e) h in
    (
      (a, not-true (is_among (map value ignore) e.neon_event_type) b, c),
      All-IsWanted filter ignore removed es hs,
    )

-- The events of a transaction are those of all its logs that pass the tests, in the order of the logs,
-- and each of them has the given type, none of the ignored types, and was removed or not as asked;
-- where no type and no removal is given, these do not count.
pub get_all_events-keep :
    (result : NeonReceipt) (filter : Option NeonEventType) (ignore : List NeonEventType)
    (removed : Option Bool)
    → (get_all_events result filter ignore removed
        ≡ keep (is_wanted filter (map value ignore) removed) (all_logs result.solana_transactions))
      × All (IsWanted filter ignore removed) (get_all_events result filter ignore removed)
unfolding get_all_events
get_all_events-keep result filter ignore removed =
    let p = is_wanted filter (map value ignore) removed in
    let same = transaction_events-keep p result.solana_transactions in
    (
      same,
      All-IsWanted filter ignore removed _ (
          subst (All (λ e. p e ≡ true)) (sym same)
            (keep-passes p (all_logs result.solana_transactions))),
    )
