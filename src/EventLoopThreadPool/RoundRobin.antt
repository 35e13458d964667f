-- ===== src/EventLoopThreadPool/RoundRobin.antt =====
-- The loops take turns.
use my_cisdi_code.Prelude.{
  Bool-cases, List, Option, Result, [], ap, arith, check, false, get_elem?, if◌then◌else◌, inl, inr,
  leb, leb→le, length, none, ok, refl, some, suc, sym, true, zero, ℕ, ◌%◌, ◌+◌, ◌<◌, ◌>>=◌, ◌>>◌,
  ◌∙◌, ◌∷◌, ◌≡◌,
}
use my_cisdi_code.EventLoopThreadPool.{
  EventLoopThreadPool, get_loop_for_hash, get_next_loop, is_empty, loop_at, round_robin,
}
use native.Mathlib.Nat.{mod-eq_of_lt, mod-add-mod, mod-lt, mod_self}

-- So many calls of `getNextLoop`.
unfoldable pub get_next_loops : ℕ → EventLoopThreadPool → Result (List ℕ × EventLoopThreadPool)
get_next_loops zero p = ok ([], p)
get_next_loops (suc k) p = do
  (l, p') ← get_next_loop p
  (ls, p'') ← get_next_loops k p'
  ok (l ∷ ls, p'')

abbrev pub or_zero : Option ℕ → ℕ
or_zero none = 0
or_zero (some l) = l

-- Turn `i` belongs to loop `i % n`.
abbrev pub turn : List ℕ → ℕ → ℕ
turn loops i = or_zero (get_elem? loops (i % length loops))

abbrev pub turns : List ℕ → ℕ → ℕ → List ℕ
turns loops i zero = []
turns loops i (suc k) = turn loops i ∷ turns loops (i + 1) k

get_elem?-some {ℓ} :
    {A : Type ℓ} (xs : List A) (i : ℕ) → i < length xs → (a : A) × (get_elem? xs i ≡ some a)
get_elem?-some [] i h = absurd (omega arith)
get_elem?-some (x ∷ xs) zero h = (x, refl)
get_elem?-some (x ∷ xs) (suc i) h = get_elem?-some xs i (omega arith)

below : (a b : ℕ) → leb b a ≡ false → a < b
below a b h = ground arith

next_turn : (i n : ℕ) → 0 < n → (if leb n (i % n + 1) then 0 else i % n + 1) ≡ (i + 1) % n
next_turn i n h = elim (Bool-cases (leb n (i % n + 1))) [
  | inl last ↦
      let e : i % n + 1 ≡ n = omega (arith, leb→le n (i % n + 1) last, mod-lt i h) in
      rw last (sym (mod_self n) ∙ ap (λ k. k % n) (sym e) ∙ mod-add-mod i n 1)
  | inr inner ↦ rw inner (sym (mod-eq_of_lt (below (i % n + 1) n inner)) ∙ mod-add-mod i n 1)
]

called :
    (p : EventLoopThreadPool) (loops : List ℕ) (i : ℕ)
    → 0 < length loops
    → round_robin (record p { next = i % length loops; loops = loops })
      ≡ ok (turn loops i, record p { next = (i + 1) % length loops; loops = loops })
called p loops i some_loops =
    let (l, found) = get_elem?-some loops (i % length loops) (mod-lt i some_loops) in
    rw (found, next_turn i (length loops) some_loops) refl

one_call :
    (p : EventLoopThreadPool) (loops : List ℕ) (i : ℕ)
    → p.started ≡ true
    → 0 < length loops
    → get_next_loop (record p { next = i % length loops; loops = loops })
      ≡ ok (turn loops i, record p { next = (i + 1) % length loops; loops = loops })
unfolding get_next_loop
one_call p [] i on h = absurd (omega arith)
one_call p (x ∷ xs) i on h =
    ap (λ b. check b >> round_robin (record p { next = i % length (x ∷ xs); loops = x ∷ xs })) on
    ∙ called p (x ∷ xs) i h

-- From a started pool with loops, whose next turn is turn `i`, so many calls of `getNextLoop` all
-- succeed and give the loops of the turns from `i` on, one after the other around the list, and the
-- next turn is the one after them.
pub get_next_loops-turns :
    (k i : ℕ) (p : EventLoopThreadPool)
    → p.started ≡ true
    → 0 < length p.loops
    → get_next_loops k (record p { next = i % length p.loops })
      ≡ ok (turns p.loops i k, record p { next = (i + k) % length p.loops })
unfolding get_next_loops
get_next_loops-turns zero i p on h =
    ap (λ n. ok ([], record p { next = n % length p.loops })) (omega arith)
get_next_loops-turns (suc k) i p on h = rw (one_call p p.loops i on h) (
    rw (get_next_loops-turns k (i + 1) p on h) (
      ap
        (λ n. ok (turn p.loops i ∷ turns p.loops (i + 1) k, record p { next = n % length p.loops }))
        (omega arith)))

-- `getLoopForHash` succeeds in any state, and its loop is the base loop where the pool has no loops and
-- else one of the pool's, the same for the same remainder of the hash.
pub get_loop_for_hash_lem :
    (hash_code : ℕ) (p : EventLoopThreadPool)
    → get_loop_for_hash hash_code p
      ≡ ok (if is_empty p.loops then p.base_loop else turn p.loops hash_code)
unfolding get_loop_for_hash
get_loop_for_hash_lem hash_code p = go p.loops
  where
    go :
        (loops : List ℕ)
        → (if is_empty loops then ok p.base_loop else loop_at (hash_code % length loops) loops)
          ≡ ok (if is_empty loops then p.base_loop else turn loops hash_code)
    go [] = refl
    go (x ∷ xs) =
        let (l, found) =
          get_elem?-some (x ∷ xs) (hash_code % length (x ∷ xs)) (mod-lt hash_code (omega arith)) in
        rw found refl
