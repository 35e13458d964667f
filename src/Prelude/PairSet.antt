-- ===== src/Prelude/PairSet.antt =====
-- `std::set` of pairs of numbers: the members in increasing order, compared from the left.
pub mod Members
use Prim.Native.Nat.{ℕ, suc}
use mathlib.Core.Path.{◌≡◌, refl, ap, ◌∙◌}
use mathlib.Core.Logic.{inl, inr}
use mathlib.Core.Bool.{Bool, true, false, not, ◌&&◌, ◌||◌}
use mathlib.Core.List.{List, [], ◌∷◌}
use native.Mathlib.Omega.{arith}
use my_cisdi_code.Prelude.Tests.{ltb, ◌==◌, if◌then◌else◌, Bool-cases}
use my_cisdi_code.Prelude.Lists.{length}

abbrev pub Pair : Type 0
Pair = ℕ × ℕ

abbrev pub before : Pair → Pair → Bool
before (a, b) (c, d) = ltb a c || (a == c && ltb b d)

abbrev pub same : Pair → Pair → Bool
same (a, b) (c, d) = a == c && b == d

unfoldable pub member : Pair → List Pair → Bool
member p [] = false
member p (x ∷ xs) = same p x || member p xs

unfoldable pub insert : Pair → List Pair → List Pair
insert p [] = p ∷ []
insert p (x ∷ xs) = if before p x then p ∷ x ∷ xs else if same p x then x ∷ xs else x ∷ insert p xs

unfoldable pub erase : Pair → List Pair → List Pair
erase p [] = []
erase p (x ∷ xs) = if same p x then xs else x ∷ erase p xs

abbrev pub After : Pair → List Pair → Type 0
After x [] = Unit {0}
After x (y ∷ ys) = (before x y ≡ true) × After x ys

abbrev pub Increasing : List Pair → Type 0
Increasing [] = Unit {0}
Increasing (x ∷ xs) = After x xs × Increasing xs

pub same_iff : (a b c d : ℕ) → same (a, b) (c, d) ≡ true → (a ≡ c) × (b ≡ d)
same_iff a b c d e = ground arith

pub same_refl : (p : Pair) → same p p ≡ true
same_refl (a, b) = ground arith

pub same-eq : (p q : Pair) → same p q ≡ true → p ≡ q
same-eq (a, b) (c, d) e = ground arith

pub before_trans : (p q r : Pair) → before p q ≡ true → before q r ≡ true → before p r ≡ true
before_trans (a, b) (c, d) (e, f) h k = ground arith

pub before_irrefl : (p q : Pair) → before p q ≡ true → same p q ≡ false
before_irrefl (a, b) (c, d) h = ground arith

pub before_total : (p q : Pair) → before p q ≡ false → same p q ≡ false → before q p ≡ true
before_total (a, b) (c, d) h k = ground arith

pub After-trans : (p q : Pair) (xs : List Pair) → before p q ≡ true → After q xs → After p xs
After-trans p q [] h k = tt
After-trans p q (x ∷ xs) h k = (before_trans p q x h k.0, After-trans p q xs h k.1)

pub After-insert :
    (x p : Pair) (xs : List Pair) → before x p ≡ true → After x xs → After x (insert p xs)
unfolding insert
After-insert x p [] h k = (h, tt)
After-insert x p (y ∷ ys) h k = elim (Bool-cases (before p y)) [
  | inl earlier ↦ rw earlier (h, k)
  | inr later ↦ elim (Bool-cases (same p y)) [
    | inl equal_pair ↦ rw (later, equal_pair) k
    | inr other ↦ rw (later, other) (k.0, After-insert x p ys h k.1)
  ]
]

pub insert-Increasing : (p : Pair) (xs : List Pair) → Increasing xs → Increasing (insert p xs)
unfolding insert
insert-Increasing p [] h = (tt, tt)
insert-Increasing p (x ∷ xs) h = elim (Bool-cases (before p x)) [
  | inl earlier ↦ rw earlier ((earlier, After-trans p x xs earlier h.0), h)
  | inr later ↦ elim (Bool-cases (same p x)) [
    | inl equal_pair ↦ rw (later, equal_pair) h
    | inr other ↦
        rw (later, other)
          (After-insert x p xs (before_total p x later other) h.0, insert-Increasing p xs h.1)
  ]
]

pub member-insert :
    (q p : Pair) (xs : List Pair) → member q (insert p xs) ≡ (same q p || member q xs)
unfolding insert member
member-insert q p [] = refl
member-insert q p (x ∷ xs) = elim (Bool-cases (before p x)) [
  | inl earlier ↦ rw earlier refl
  | inr later ↦ elim (Bool-cases (same p x)) [
    | inl equal_pair ↦ rw (later, equal_pair) (ground (arith, ap (same q) (same-eq p x equal_pair)))
    | inr other ↦ rw (later, other) (ground (arith, member-insert q p xs))
  ]
]

pub length-insert :
    (p : Pair) (xs : List Pair) → member p xs ≡ false → length (insert p xs) ≡ suc (length xs)
unfolding insert member
length-insert p [] h = refl
length-insert p (x ∷ xs) h = elim (Bool-cases (before p x)) [
  | inl earlier ↦ rw earlier refl
  | inr later ↦ elim (Bool-cases (same p x)) [
    | inl equal_pair ↦ absurd (ground arith)
    | inr other ↦ rw (later, other) (ground (arith, length-insert p xs))
  ]
]

pub member-After :
    (p q : Pair) (xs : List Pair) → After p xs → before q p ≡ true → member q xs ≡ false
unfolding member
member-After p q [] h k = refl
member-After p q (x ∷ xs) h k =
    ground (arith, before_irrefl q x (before_trans q p x k h.0), member-After p q xs h.1 k)

pub member_self : (p : Pair) (xs : List Pair) → After p xs → member p xs ≡ false
unfolding member
member_self p [] h = refl
member_self p (x ∷ xs) h = ground (arith, before_irrefl p x h.0, member_self p xs h.1)

pub member-erase :
    (q p : Pair) (xs : List Pair)
    → Increasing xs
    → member q (erase p xs) ≡ (not (same q p) && member q xs)
unfolding erase member
member-erase q p [] h = ground arith
member-erase q p (x ∷ xs) h = elim (Bool-cases (same p x)) [
  | inl equal_pair ↦ rw equal_pair (elim (Bool-cases (same q x)) [
    | inl found ↦
        let absent = ap (λ z. member z xs) (same-eq q x found) ∙ member_self x xs h.0 in
        let gone = ap (same q) (same-eq p x equal_pair) ∙ found in ground (arith, absent, gone)
    | inr absent ↦ ground (arith, absent, ap (same q) (same-eq p x equal_pair))
  ])
  | inr other ↦ rw other (elim (Bool-cases (same q p)) [
    | inl found ↦
        let apart = ap (λ z. same z x) (same-eq q p found) ∙ other in
        ground (arith, found, apart, member-erase q p xs h.1)
    | inr absent ↦ ground (arith, absent, member-erase q p xs h.1)
  ])
]

pub After-erase : (x p : Pair) (xs : List Pair) → After x xs → After x (erase p xs)
unfolding erase
After-erase x p [] h = tt
After-erase x p (y ∷ ys) h = elim (Bool-cases (same p y)) [
  | inl equal_pair ↦ rw equal_pair h.1
  | inr other ↦ rw other (h.0, After-erase x p ys h.1)
]

pub erase-Increasing : (p : Pair) (xs : List Pair) → Increasing xs → Increasing (erase p xs)
unfolding erase
erase-Increasing p [] h = tt
erase-Increasing p (x ∷ xs) h = elim (Bool-cases (same p x)) [
  | inl equal_pair ↦ rw equal_pair h.1
  | inr other ↦ rw other (After-erase x p xs h.0, erase-Increasing p xs h.1)
]

pub length-erase :
    (p : Pair) (xs : List Pair) → member p xs ≡ true → suc (length (erase p xs)) ≡ length xs
unfolding erase member
length-erase p [] h = absurd (cc)
length-erase p (x ∷ xs) h = elim (Bool-cases (same p x)) [
  | inl equal_pair ↦ rw equal_pair refl
  | inr other ↦ rw other (ground (arith, length-erase p xs))
]
