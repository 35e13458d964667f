-- ===== src/TimerQueue/Due.antt =====
-- The timers that are due: the members of a set before a bound.
use my_cisdi_code.Prelude.{
  Bool-cases, List, [], ap, arith, false, inl, inr, not, sym, true, ◌&&◌, ◌∙◌, ◌∷◌, ◌≡◌,
}
use my_cisdi_code.Prelude.PairSet.{
  After, Increasing, Pair, before, before_trans, member, same, same-eq,
}
use my_cisdi_code.Prelude.PairSet.Members.{false_of, true-false}
use my_cisdi_code.TimerQueue.{drop_before, take_before}

-- In an increasing list the members before a bound come first.
After-late :
    (x p b : Pair) (xs : List Pair)
    → After x xs
    → before x b ≡ false
    → member p xs ≡ true
    → before p b ≡ false
unfolding member
After-late x p b [] h k e = absurd (cc)
After-late x p b (y ∷ ys) h k e = elim (Bool-cases (same p y)) [
  | inl found ↦ false_of (before p b) (λ early.
      let py = same-eq p y found in
      true-false (sym (before_trans x y b h.0 (ap (λ z. before z b) (sym py) ∙ early)) ∙ k))
  | inr other ↦ After-late x p b ys h.1 k (ground arith)
]

pub member-take_before :
    (p b : Pair) (xs : List Pair)
    → Increasing xs
    → member p (take_before b xs) ≡ (before p b && member p xs)
unfolding member take_before
member-take_before p b [] h = ground arith
member-take_before p b (x ∷ xs) h = elim (Bool-cases (before x b)) [
  | inl early ↦ rw early (elim (Bool-cases (same p x)) [
    | inl found ↦
        let e = ap (λ z. before z b) (same-eq p x found) ∙ early in ground (arith, found, e)
    | inr other ↦ ground (arith, other, member-take_before p b xs h.1)
  ])
  | inr late ↦ rw late (elim (Bool-cases (same p x)) [
    | inl found ↦
        let e = ap (λ z. before z b) (same-eq p x found) ∙ late in ground (arith, found, e)
    | inr other ↦ elim (Bool-cases (member p xs)) [
      | inl there ↦ let e = After-late x p b xs h.0 late there in ground (arith, e, there, other)
      | inr absent ↦ ground (arith, absent, other)
    ]
  ])
]

pub member-drop_before :
    (p b : Pair) (xs : List Pair)
    → Increasing xs
    → member p (drop_before b xs) ≡ (not (before p b) && member p xs)
unfolding member drop_before
member-drop_before p b [] h = ground arith
member-drop_before p b (x ∷ xs) h = elim (Bool-cases (before x b)) [
  | inl early ↦ rw early (elim (Bool-cases (same p x)) [
    | inl found ↦
        let e = ap (λ z. before z b) (same-eq p x found) ∙ early in
        ground (arith, found, e, member-drop_before p b xs h.1)
    | inr other ↦ ground (arith, other, member-drop_before p b xs h.1)
  ])
  | inr late ↦ rw late (elim (Bool-cases (same p x)) [
    | inl found ↦
        let e = ap (λ z. before z b) (same-eq p x found) ∙ late in ground (arith, found, e)
    | inr other ↦ elim (Bool-cases (member p xs)) [
      | inl there ↦ let e = After-late x p b xs h.0 late there in ground (arith, e, there, other)
      | inr absent ↦ ground (arith, absent, other)
    ]
  ])
]

After-take_before : (x b : Pair) (xs : List Pair) → After x xs → After x (take_before b xs)
unfolding take_before
After-take_before x b [] h = tt
After-take_before x b (y ∷ ys) h = elim (Bool-cases (before y b)) [
  | inl early ↦ rw early (h.0, After-take_before x b ys h.1)
  | inr late ↦ rw late tt
]

pub take_before-Increasing :
    (b : Pair) (xs : List Pair) → Increasing xs → Increasing (take_before b xs)
unfolding take_before
take_before-Increasing b [] h = tt
take_before-Increasing b (x ∷ xs) h = elim (Bool-cases (before x b)) [
  | inl early ↦ rw early (After-take_before x b xs h.0, take_before-Increasing b xs h.1)
  | inr late ↦ rw late tt
]
