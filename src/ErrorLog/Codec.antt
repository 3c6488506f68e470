-- ===== src/ErrorLog/Codec.antt =====
-- A codec for the log in place of the JSON library, with which the tests run: every list is written
-- behind its length.
use neon_tests.Prelude.{ℕ, zero, suc, ◌≡◌, refl, ap, [], ◌∷◌, List, Option, none, some, length}
use neon_tests.Prelude.Text.{Text}
use neon_tests.Py.{Result, ok, err, value_error}
use neon_tests.ErrorLog.{TestGroup, Groups, group_number, Log}
use neon_tests.ErrorLog.Counts.{group_at, group_at-number}

pub record Codec (A : Type 0) : Type 0 where
  pub put : A → Text → Text
  pub get : Text → Option (A × Text)
  pub law : (a : A) (rest : Text) → get (put a rest) ≡ some (a, rest)

abbrev get_number : Text → Option (ℕ × Text)
get_number [] = none
get_number (n ∷ rest) = some (n, rest)

abbrev number_codec : Codec ℕ
number_codec = record { put = λ n rest. n ∷ rest; get = get_number; law = λ n rest. refl }

abbrev bind : {A B : Type 0} → Option A → (A → Option B) → Option B
bind none f = none
bind (some a) f = f a

module _ {A B : Type 0} (ca : Codec A) (cb : Codec B) where
  abbrev pair_codec : Codec (A × B)
  pair_codec = record {
    put = λ ab rest. ca.put ab.0 (cb.put ab.1 rest);
    get = λ text. bind (ca.get text) λ r. bind (cb.get r.1) λ q. some ((r.0, q.0), q.1);
    law = λ ab rest. rw (ca.law ab.0 (cb.put ab.1 rest), cb.law ab.1 rest) refl;
  }

module _ {A : Type 0} (c : Codec A) where
  abbrev put_all : List A → Text → Text
  put_all [] rest = rest
  put_all (x ∷ xs) rest = c.put x (put_all xs rest)

  abbrev get_all : ℕ → Text → Option (List A × Text)
  get_all zero text = some ([], text)
  get_all (suc n) text = bind (c.get text) λ r. bind (get_all n r.1) λ q. some (r.0 ∷ q.0, q.1)

  pub get_all-put_all :
      (xs : List A) (rest : Text) → get_all (length xs) (put_all xs rest) ≡ some (xs, rest)
  get_all-put_all [] rest = refl
  get_all-put_all (x ∷ xs) rest = rw (c.law x (put_all xs rest), get_all-put_all xs rest) refl

  abbrev get_list : Text → Option (List A × Text)
  get_list [] = none
  get_list (n ∷ text) = get_all n text

  abbrev list_codec : Codec (List A)
  list_codec = record {
    put = λ xs rest. length xs ∷ put_all xs rest;
    get = get_list;
    law = get_all-put_all;
  }

abbrev group_codec : Codec TestGroup
group_codec = record {
  put = λ g rest. group_number g ∷ rest;
  get = λ text. bind (get_number text) λ r. some (group_at r.0, r.1);
  law = λ g rest. ap (λ x. some (x, rest)) (group_at-number g);
}

abbrev text_codec : Codec Text
text_codec = list_codec number_codec

abbrev groups_codec : Codec (Groups (List Text))
groups_codec = list_codec (pair_codec group_codec (list_codec text_codec))

abbrev parts_codec : Codec (Groups (List Text) × (Groups (List Text) × List Text))
parts_codec = pair_codec groups_codec (pair_codec groups_codec (list_codec text_codec))

abbrev pub dump : Log → Text
dump log = parts_codec.put (log.failures, (log.errors, log.comments)) []

abbrev log_of : Option ((Groups (List Text) × (Groups (List Text) × List Text)) × Text) → Result Log
log_of none = err value_error
log_of (some ((failures, (errors, comments)), rest)) =
    ok (record { failures = failures; errors = errors; comments = comments })

abbrev pub load : Text → Result Log
load text = log_of (parts_codec.get text)

pub load-dump : (log : Log) → load (dump log) ≡ ok log
load-dump log = ap log_of (parts_codec.law (log.failures, (log.errors, log.comments)) [])
