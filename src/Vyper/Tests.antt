-- ===== src/Vyper/Tests.antt =====
-- The versions of Vyper at concrete releases.
use neon_tests.Prelude.{
  ℕ, zero, suc, ◌<◌, ◌≤◌, ◌≡◌, refl, [], ◌∷◌, List, Option, none, some, length,
}
use neon_tests.Prelude.Text.{Text, codes, starts_with, contains}
use neon_tests.Py.{ok}
use neon_tests.Py.Number.{int, strip, signed, magnitude, digits_from}
use neon_tests.Py.Hex.{digit_value}
use neon_tests.Results.Order.{keep, sort, insert, text_before}
use neon_tests.Results.PreviousTags.{distinct}
use neon_tests.Vyper.{
  releases_from, major_of, numbers, less, best, highest_version, is_of, last_three_majors,
  last_three_versions, get_installable_vyper_versions, get_three_last_versions,
}
use neon_tests.Vyper.Highest.{AreHighest, get_three_last_versions-AreHighest}

abbrev releases : List Text
releases =
    codes "0.1.0b17"
    ∷ codes "0.2.16"
    ∷ codes "0.3.9"
    ∷ codes "0.3.10"
    ∷ codes "0.4.1rc1"
    ∷ codes "0.4.0"
    ∷ []

-- The first answer of the index is an error.
abbrev replies : ℕ → Option (List Text)
replies zero = none
replies (suc k) = some releases

abbrev chosen : List Text
chosen = codes "0.4.0" ∷ codes "0.3.10" ∷ codes "0.2.16" ∷ []

three_last : get_three_last_versions text_before replies ≡ ok chosen
unfolding get_three_last_versions get_installable_vyper_versions releases_from last_three_versions
    last_three_majors highest_version is_of keep numbers less best major_of distinct sort insert
    text_before starts_with contains int strip signed magnitude digits_from digit_value
three_last = refl

get_three_last_versions-AreHighest_example :
    (names : List Text) × (majors : List Text) × (i : ℕ) × (i < 5)
    × (replies i ≡ some names)
    × (last_three_majors (sort text_before names) ≡ ok majors)
    × (length majors ≤ 3)
    × AreHighest (sort text_before names) majors chosen
get_three_last_versions-AreHighest_example =
    get_three_last_versions-AreHighest text_before replies chosen three_last

-- The majors are ordered as texts: the tenth is not among the last three of these.
tenth_major :
    last_three_majors (codes "0.10.0" ∷ codes "0.9.0" ∷ codes "0.8.0" ∷ codes "0.7.0" ∷ [])
    ≡ ok (codes "9" ∷ codes "8" ∷ codes "7" ∷ [])
unfolding last_three_majors major_of distinct sort insert text_before keep
tenth_major = refl
