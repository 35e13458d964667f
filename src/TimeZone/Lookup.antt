-- ===== src/TimeZone/Lookup.antt =====
-- The local time that holds at a time is that of the latest transition until then.
use my_cisdi_code.Prelude.{
  Bool, Bool-cases, List, Option, Result, [], arith, false, if◌then◌else◌, inl, inr, none, refl,
  some, true, ℤ, ◌∷◌, ◌≡◌,
}
use my_cisdi_code.TimeZone.{
  Data, Localtime, Transition, choose, comp, comp_equal, eq_ℤ, find_in, find_localtime, key,
  last_of, localtime_at, lower_bound, lt_ℤ,
}

lt_trans : (a b c : ℤ) → lt_ℤ a b ≡ true → lt_ℤ b c ≡ true → lt_ℤ a c ≡ true
lt_trans a b c h k = ground arith

lt_asym : (a b : ℤ) → lt_ℤ a b ≡ true → lt_ℤ b a ≡ false
lt_asym a b h = ground arith

eq_lt : (a b c : ℤ) → eq_ℤ a b ≡ true → lt_ℤ b c ≡ true → lt_ℤ a c ≡ true
eq_lt a b c h k = ground arith

eq_not_lt : (a b : ℤ) → eq_ℤ a b ≡ true → lt_ℤ a b ≡ false
eq_not_lt a b h = ground arith

eq_not_gt : (a b : ℤ) → eq_ℤ a b ≡ true → lt_ℤ b a ≡ false
eq_not_gt a b h = ground arith

gt_of_not : (a b : ℤ) → lt_ℤ b a ≡ false → eq_ℤ a b ≡ false → lt_ℤ a b ≡ true
gt_of_not a b h k = ground arith

eq_of_not : (a b : ℤ) → lt_ℤ b a ≡ false → lt_ℤ a b ≡ false → eq_ℤ a b ≡ true
eq_of_not a b h k = ground arith

-- The times of the transitions increase.
abbrev pub IsBefore : Bool → Transition → List Transition → Type 0
IsBefore gmt t [] = Unit {0}
IsBefore gmt t (u ∷ us) = (comp gmt t u ≡ true) × IsBefore gmt t us

abbrev pub IsAscending : Bool → List Transition → Type 0
IsAscending gmt [] = Unit {0}
IsAscending gmt (t ∷ ts) = IsBefore gmt t ts × IsAscending gmt ts

-- A plain search: the last transition of the whole list that is not later than `sentry`.
unfoldable pub latest : Bool → Transition → Option Transition → List Transition → Option Transition
latest gmt sentry found [] = found
latest gmt sentry found (t ∷ ts) =
    latest gmt sentry (if comp gmt sentry t then found else some t) ts

-- Before the first transition the first local time holds.
abbrev pub localtime_of : Option Transition → Data → Result Localtime
localtime_of none d = localtime_at 0 d
localtime_of (some t) d = localtime_at t.localtime_idx d

IsBefore-trans :
    (gmt : Bool) (s t : Transition) (ts : List Transition)
    → comp gmt s t ≡ true
    → IsBefore gmt t ts
    → IsBefore gmt s ts
IsBefore-trans gmt s t [] h k = tt
IsBefore-trans gmt s t (u ∷ us) h k =
    (lt_trans (key gmt s) (key gmt t) (key gmt u) h k.0, IsBefore-trans gmt s t us h k.1)

latest-IsBefore :
    (gmt : Bool) (s : Transition) (found : Option Transition) (ts : List Transition)
    → IsBefore gmt s ts
    → latest gmt s found ts ≡ found
unfolding latest
latest-IsBefore gmt s found [] h = refl
latest-IsBefore gmt s found (t ∷ ts) h = rw h.0 (latest-IsBefore gmt s found ts h.1)

equal-IsBefore :
    (gmt : Bool) (s t : Transition) (ts : List Transition)
    → comp_equal gmt s t ≡ true
    → IsBefore gmt t ts
    → IsBefore gmt s ts
equal-IsBefore gmt s t [] h k = tt
equal-IsBefore gmt s t (u ∷ us) h k =
    (eq_lt (key gmt s) (key gmt t) (key gmt u) h k.0, equal-IsBefore gmt s t us h k.1)

module _ (gmt : Bool) (s : Transition) (d : Data) where
  -- `lower_bound` has stopped at `t`.
  at_equal :
      (prev found : Option Transition) (last t : Transition) (ts : List Transition)
      → comp_equal gmt s t ≡ true
      → IsBefore gmt t ts
      → choose gmt s last (prev, t ∷ ts) d ≡ localtime_of (latest gmt s found (t ∷ ts)) d
  unfolding latest
  at_equal prev found last t ts same later =
      rw
        (
          same,
          eq_not_lt (key gmt s) (key gmt t) same,
          latest-IsBefore gmt s (some t) ts (equal-IsBefore gmt s t ts same later),
        )
        refl

  search_from :
      (p : Transition) (ts : List Transition)
      → IsAscending gmt ts
      → choose gmt s (last_of p ts) (lower_bound gmt s (some p) ts) d
        ≡ localtime_of (latest gmt s (some p) ts) d
  unfolding lower_bound latest
  search_from p [] h = refl
  search_from p (t ∷ ts) h = elim (Bool-cases (comp gmt t s)) [
    | inl earlier ↦ rw (earlier, lt_asym (key gmt t) (key gmt s) earlier) (search_from t ts h.1)
    | inr stop ↦ elim (Bool-cases (comp_equal gmt s t)) [
      | inl same ↦ rw stop (at_equal (some p) (some p) (last_of t ts) t ts same h.0)
      | inr other ↦
          let later = gt_of_not (key gmt s) (key gmt t) stop other in
          rw
            (
              stop,
              other,
              later,
              latest-IsBefore gmt s (some p) ts (IsBefore-trans gmt s t ts later h.0),
            )
            refl
    ]
  ]

  find_in-latest :
      (ts : List Transition)
      → IsAscending gmt ts
      → find_in gmt s ts d ≡ localtime_of (latest gmt s none ts) d
  unfolding lower_bound latest
  find_in-latest [] h = refl
  find_in-latest (t ∷ ts) h = elim (Bool-cases (comp gmt s t)) [
    | inl early ↦
        rw (early, latest-IsBefore gmt s none ts (IsBefore-trans gmt s t ts early h.0)) refl
    | inr not_early ↦ elim (Bool-cases (comp gmt t s)) [
      | inl earlier ↦ rw (not_early, earlier) (search_from t ts h.1)
      | inr stop ↦
          let same = eq_of_not (key gmt s) (key gmt t) stop not_early in
          rw
            (
              not_early,
              stop,
              same,
              latest-IsBefore gmt s (some t) ts (equal-IsBefore gmt s t ts same h.0),
            )
            refl
    ]
  ]

-- `findLocaltime` over transitions whose times increase gives the local time of the latest transition that
-- is not later, as a search of the whole table finds it, and the first local time where there is none;
-- it fails only where that index is out of the table, and never the assertion.
pub find_localtime_lem :
    (d : Data) (sentry : Transition) (gmt : Bool)
    → IsAscending gmt d.transitions
    → find_localtime d sentry gmt ≡ localtime_of (latest gmt sentry none d.transitions) d
unfolding find_localtime
find_localtime_lem d sentry gmt h = find_in-latest gmt sentry d d.transitions h
