-- ===== src/ErrorLog/Updates.antt =====
-- What is read after an operation of utils/error_log.py.
use neon_tests.Prelude.{
  true-ne-false, ◌≡◌, refl, sym, ◌∙◌, ap, inl, inr, [], ◌∷◌, ◌++◌, List, arith, if◌then◌else◌, Bool,
  true, false, Bool-cases, ==_iff, append-nil,
}
use neon_tests.Prelude.Text.{Text}
use neon_tests.Py.{Result, ok}
use neon_tests.ErrorLog.{
  TestGroup, Groups, group_number, group_eq, or_else, names_of, extend, Log, LogFile, is_nonempty,
  read, has_logs, update, add_failures,
}
use neon_tests.ErrorLog.Counts.{group_eq_sound, find-same, find-other}

group_eq_refl : (g : TestGroup) → group_eq g g ≡ true
group_eq_refl g = (==_iff (group_number g) (group_number g)).1 refl

-- Two groups that a third one tells apart.
differ : (k g h : TestGroup) → group_eq k h ≡ true → group_eq k g ≡ false → group_eq g h ≡ false
differ k g h same other = elim (Bool-cases (group_eq g h)) [
  | inl e ↦ absurd (
      true-ne-false (
        sym (group_eq_refl g)
        ∙ ap (λ x. group_eq x g) (group_eq_sound g h e ∙ sym (group_eq_sound k h same))
        ∙ other))
  | inr e ↦ e
]

names_of-same :
    (k g : TestGroup) (names : List Text) (ds : Groups (List Text))
    → group_eq k g ≡ true
    → names_of g ((k, names) ∷ ds) ≡ names
names_of-same k g names ds e = ap (or_else []) (find-same k g names ds e)

names_of-other :
    (k g : TestGroup) (names : List Text) (ds : Groups (List Text))
    → group_eq k g ≡ false
    → names_of g ((k, names) ∷ ds) ≡ names_of g ds
names_of-other k g names ds e = ap (or_else []) (find-other k g names ds e)

added : (b : Bool) (names : List Text) → List Text
added b names = if b then names else []

names_of-extend :
    (h g : TestGroup) (names : List Text) (ds : Groups (List Text))
    → names_of h (extend g names ds) ≡ names_of h ds ++ added (group_eq g h) names
unfolding extend added
names_of-extend h g names [] = elim (Bool-cases (group_eq g h)) [
  | inl same ↦ rw same refl
  | inr other ↦ rw other refl
]
names_of-extend h g names ((k, old) ∷ ds) = elim (Bool-cases (group_eq k g)) [
  | inl kg ↦ elim (Bool-cases (group_eq k h)) [
    | inl kh ↦ rw kg (
        names_of-same k h (old ++ names) ds kh
        ∙ sym (
            ap (λ b. old ++ added b names)
              (sym (ap (λ x. group_eq x h) (group_eq_sound k g kg)) ∙ kh))
        ∙ ap (λ x. x ++ added (group_eq g h) names) (sym (names_of-same k h old ds kh)))
    | inr nkh ↦ rw kg (
        names_of-other k h (old ++ names) ds nkh
        ∙ sym (append-nil (names_of h ds))
        ∙ sym (
            ap (λ b. names_of h ds ++ added b names)
              (sym (ap (λ x. group_eq x h) (group_eq_sound k g kg)) ∙ nkh))
        ∙ ap (λ x. x ++ added (group_eq g h) names) (sym (names_of-other k h old ds nkh)))
  ]
  | inr nkg ↦ elim (Bool-cases (group_eq k h)) [
    | inl kh ↦ rw nkg (
        names_of-same k h old (extend g names ds) kh
        ∙ sym (append-nil old)
        ∙ sym (ap (λ b. old ++ added b names) (differ k g h kh nkg))
        ∙ ap (λ x. x ++ added (group_eq g h) names) (sym (names_of-same k h old ds kh)))
    | inr nkh ↦ rw nkg (
        names_of-other k h old (extend g names ds) nkh
        ∙ names_of-extend h g names ds
        ∙ ap (λ x. x ++ added (group_eq g h) names) (sym (names_of-other k h old ds nkh)))
  ]
]

-- What the JSON library writes, it reads back.
module _ (dump : Log → Text) (load : Text → Result Log)
    (load-dump : (log : Log) → load (dump log) ≡ ok log) where
  pub update-reads :
      (change : Log → Log) (file : LogFile) (log : Log)
      → read load file ≡ ok log
      → ((update dump load change file).1 ≡ ok (change log))
        × (read load (update dump load change file).0 ≡ ok (change log))
  unfolding update read
  update-reads change file log e = rw e (refl, load-dump (change log))

  nonempty-extend :
      (g : TestGroup) (names : List Text) (ds : Groups (List Text))
      → is_nonempty (extend g names ds) ≡ true
  unfolding extend
  nonempty-extend g names [] = refl
  nonempty-extend g names ((k, old) ∷ ds) = ground arith

  -- With a codec that reads what it writes and a log that can be read, `add_failures` appends the
  -- names to the failures of the group, leaves the other groups, the errors and the comments, and
  -- returns the log that is read then; from then on there are logs, even if there were no names to
  -- add.
  pub add_failures-reads :
      (g h : TestGroup) (names : List Text) (file : LogFile) (log : Log)
      → read load file ≡ ok log
      → (log' : Log) × ((add_failures dump load g names file).1 ≡ ok log')
        × (read load (add_failures dump load g names file).0 ≡ ok log')
        × (names_of h log'.failures
            ≡ names_of h log.failures ++ (if group_eq g h then names else []))
        × (log'.errors ≡ log.errors)
        × (log'.comments ≡ log.comments)
        × (has_logs load (add_failures dump load g names file).0 ≡ ok true)
  unfolding add_failures has_logs added
  add_failures-reads g h names file log e =
      let log' : Log = record {
        failures = extend g names log.failures;
        errors = log.errors;
        comments = log.comments;
      } in
      let (result, back) =
        update-reads
          (λ l. record {
            failures = extend g names l.failures;
            errors = l.errors;
            comments = l.comments;
          })
          file log e in
      (
        log',
        result,
        back,
        names_of-extend h g names log.failures,
        refl,
        refl,
        rw (back, nonempty-extend g names log.failures) refl,
      )
