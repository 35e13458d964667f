-- ===== src/Prelude/PairSet/Members.antt =====
-- What is in a set after an insertion and after an erasure, case by case.
use mathlib.Core.Path.{◌≡◌, sym, ◌∙◌}
use mathlib.Core.Logic.{◌⊎◌, inl, inr}
use mathlib.Core.Bool.{Bool, true, false, not, ◌&&◌, ◌||◌}
use mathlib.Core.List.{List}
use native.Mathlib.Omega.{arith}
use my_cisdi_code.Prelude.PairSet.{
  Increasing, Pair, erase, insert, member, member-erase, member-insert, same, same_refl,
}

pub or_cases : (a b : Bool) → (a || b) ≡ true → (a ≡ true) ⊎ (b ≡ true)
or_cases true b e = inl e
or_cases false b e = inr e

and_cases : (a b : Bool) → (not a && b) ≡ true → (a ≡ false) × (b ≡ true)
and_cases true b e = absurd (cc)
and_cases false b e = (ground arith, e)

pub true-false : true ≡ false → ⊥
true-false e = absurd (cc)

pub false_of : (b : Bool) → (b ≡ true → ⊥) → b ≡ false
false_of true h = absurd (h (ground arith))
false_of false h = ground arith

module _ (q p : Pair) (xs : List Pair) where
  pub insert_cases : member q (insert p xs) ≡ true → (same q p ≡ true) ⊎ (member q xs ≡ true)
  insert_cases e = or_cases (same q p) (member q xs) (sym (member-insert q p xs) ∙ e)

  pub insert_old : member q xs ≡ true → member q (insert p xs) ≡ true
  insert_old e = ground (arith, member-insert q p xs)

  pub insert_absent : same q p ≡ false → member q xs ≡ false → member q (insert p xs) ≡ false
  insert_absent e f = ground (arith, member-insert q p xs)

  module _ (h : Increasing xs) where
    pub erase_cases : member q (erase p xs) ≡ true → (same q p ≡ false) × (member q xs ≡ true)
    erase_cases e = and_cases (same q p) (member q xs) (sym (member-erase q p xs h) ∙ e)

    pub erase_other : same q p ≡ false → member q xs ≡ true → member q (erase p xs) ≡ true
    erase_other e f = ground (arith, member-erase q p xs h)

    pub erase_absent : member q xs ≡ false → member q (erase p xs) ≡ false
    erase_absent e = ground (arith, member-erase q p xs h)

pub insert_self : (p : Pair) (xs : List Pair) → member p (insert p xs) ≡ true
insert_self p xs = ground (arith, member-insert p p xs, same_refl p)

pub erase_self : (p : Pair) (xs : List Pair) → Increasing xs → member p (erase p xs) ≡ false
erase_self p xs h = ground (arith, member-erase p p xs h, same_refl p)
