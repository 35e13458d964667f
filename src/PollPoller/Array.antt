-- ===== src/PollPoller/Array.antt =====
-- The entries of an array of `pollfd` after a store and after `pop_back`.
use my_cisdi_code.Prelude.{
  List, [], ap, arith, get_elem?, inl, inr, length, refl, some, suc, zero, ℕ, ◌++◌, ◌<◌, ◌∷◌, ◌≡◌,
  ◌≢◌, ◌⊎◌,
}
use my_cisdi_code.PollPoller.{PollFd, pop_back, set_at}

pub length-set_at : (i : ℕ) (x : PollFd) (xs : List PollFd) → length (set_at i x xs) ≡ length xs
length-set_at i x [] = refl
length-set_at zero x (y ∷ ys) = refl
length-set_at (suc i) x (y ∷ ys) = ap suc (length-set_at i x ys)

pub get_elem?-set_at :
    (i : ℕ) (x : PollFd) (xs : List PollFd) → i < length xs → get_elem? (set_at i x xs) i ≡ some x
get_elem?-set_at i x [] h = absurd (omega arith)
get_elem?-set_at zero x (y ∷ ys) h = refl
get_elem?-set_at (suc i) x (y ∷ ys) h = get_elem?-set_at i x ys (omega arith)

pub set_at_other :
    (i j : ℕ) (x : PollFd) (xs : List PollFd) → j ≢ i → get_elem? (set_at i x xs) j ≡ get_elem? xs j
set_at_other i j x [] h = refl
set_at_other zero zero x (y ∷ ys) h = absurd (h refl)
set_at_other zero (suc j) x (y ∷ ys) h = refl
set_at_other (suc i) zero x (y ∷ ys) h = refl
set_at_other (suc i) (suc j) x (y ∷ ys) h = set_at_other i j x ys (λ e. h (ap suc e))

pub get_elem?-pop_back :
    (xs : List PollFd) (i : ℕ) → suc i < length xs → get_elem? (pop_back xs) i ≡ get_elem? xs i
get_elem?-pop_back [] i h = absurd (omega arith)
get_elem?-pop_back (x ∷ []) i h = absurd (omega arith)
get_elem?-pop_back (x ∷ y ∷ ys) zero h = refl
get_elem?-pop_back (x ∷ y ∷ ys) (suc i) h = get_elem?-pop_back (y ∷ ys) i (omega arith)

pub pop_back_bound :
    (xs : List PollFd) (i : ℕ) (x : PollFd) → get_elem? (pop_back xs) i ≡ some x → suc i < length xs
pop_back_bound [] i x e = absurd (cc)
pop_back_bound (y ∷ []) i x e = absurd (cc)
pop_back_bound (y ∷ z ∷ ys) zero x e = omega arith
pop_back_bound (y ∷ z ∷ ys) (suc i) x e = let h = pop_back_bound (z ∷ ys) i x e in omega arith

pub get_elem?_bound :
    (xs : List PollFd) (i : ℕ) (x : PollFd) → get_elem? xs i ≡ some x → i < length xs
get_elem?_bound [] i x e = absurd (cc)
get_elem?_bound (y ∷ ys) zero x e = omega arith
get_elem?_bound (y ∷ ys) (suc i) x e = let h = get_elem?_bound ys i x e in omega arith

pub get_elem?_of_lt :
    (xs : List PollFd) (i : ℕ) → i < length xs → (x : PollFd) × (get_elem? xs i ≡ some x)
get_elem?_of_lt [] i h = absurd (omega arith)
get_elem?_of_lt (y ∷ ys) zero h = (y, refl)
get_elem?_of_lt (y ∷ ys) (suc i) h = get_elem?_of_lt ys i (omega arith)

pub get_elem?-append :
    (xs : List PollFd) (y : PollFd) (i : ℕ)
    → i < length xs
    → get_elem? (xs ++ (y ∷ [])) i ≡ get_elem? xs i
get_elem?-append [] y i h = absurd (omega arith)
get_elem?-append (x ∷ xs) y zero h = refl
get_elem?-append (x ∷ xs) y (suc i) h = get_elem?-append xs y i (omega arith)

pub append_last : (xs : List PollFd) (y : PollFd) → get_elem? (xs ++ (y ∷ [])) (length xs) ≡ some y
append_last [] y = refl
append_last (x ∷ xs) y = append_last xs y

pub append_cases :
    (xs : List PollFd) (y : PollFd) (i : ℕ) (x : PollFd)
    → get_elem? (xs ++ (y ∷ [])) i ≡ some x
    → (get_elem? xs i ≡ some x) ⊎ ((i ≡ length xs) × (x ≡ y))
append_cases [] y zero x e = inr (refl, cc)
append_cases [] y (suc i) x e = absurd (cc)
append_cases (z ∷ xs) y zero x e = inl e
append_cases (z ∷ xs) y (suc i) x e = elim (append_cases xs y i x e) [
  | inl old ↦ inl old
  | inr (at_end, same) ↦ inr (ap suc at_end, same)
]
