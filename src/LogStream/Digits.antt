-- ===== src/LogStream/Digits.antt =====
-- The texts of integers, read back.
use my_cisdi_code.Prelude.{
  ==_iff, ==_of_eq, Bool-cases, Bytes, Option, Result, [], ap, arith, false, get_elem?,
  if◌then◌else◌, inl, inr, leb, length, length-append, negsuc, none, ok, pos, refl, some, subst,
  suc, true, zero, ℕ, ℤ, ◌%◌, ◌&&◌, ◌*◌, ◌++◌, ◌+◌, ◌-◌, ◌/◌, ◌<◌, ◌==◌, ◌^◌, ◌∙◌, ◌∷◌, ◌≡◌, ◌≤◌,
}
use my_cisdi_code.LogStream.{
  convert, convert_digits, convert_hex, digits_hex, in_table, magnitude, zero_at,
}
use mathlib.Core.List.{reverse, reverse-append, reverse-cons, append_assoc}
use mathlib.Core.Option
use native.Mathlib.Nat.{pow-suc, pow-zero, div-lt_iff_lt-mul, mod-lt, mod-add-div'}

abbrev pub with_digit : Option ℕ → (ℕ → Option ℕ) → Option ℕ
with_digit none f = none
with_digit (some d) f = f d

-- Reading a number from its digits, the most significant one first.
module _ (base : ℕ) (value : ℕ → Option ℕ) where
  abbrev pub read_from : ℕ → Bytes → Option ℕ
  read_from acc [] = some acc
  read_from acc (c ∷ cs) = with_digit (value c) (λ d. read_from (acc * base + d) cs)

  read_from-append :
      (acc n : ℕ) (xs ys : Bytes)
      → read_from acc xs ≡ some n
      → read_from acc (xs ++ ys) ≡ read_from n ys
  read_from-append acc n [] ys e = ap (λ (k : ℕ). read_from k ys) (cc)
  read_from-append acc n (x ∷ xs) ys e =
      go (value x) (λ d. read_from-append (acc * base + d) n xs ys) e
    where
      go :
          (v : Option ℕ)
          → ((d : ℕ)
              → read_from (acc * base + d) xs ≡ some n
              → read_from (acc * base + d) (xs ++ ys) ≡ read_from n ys)
          → with_digit v (λ d. read_from (acc * base + d) xs) ≡ some n
          → with_digit v (λ d. read_from (acc * base + d) (xs ++ ys)) ≡ read_from n ys
      go none ih e = absurd (cc)
      go (some d) ih e = ih d e

abbrev pub decimal_value : ℕ → Option ℕ
decimal_value c = if leb b'0' c && leb c b'9' then some (c - b'0') else none

abbrev pub hex_value : ℕ → Option ℕ
hex_value c =
    if leb b'0' c && leb c b'9'
    then some (c - b'0')
    else if leb b'A' c && leb c b'F'
    then some (c - b'A' + 10)
    else none

abbrev Known : (ℕ → Result ℕ) → (ℕ → Option ℕ) → ℕ → Type 0
Known digit value d = (c : ℕ) × (digit d ≡ ok c) × (value c ≡ some d)

positive_digit : (d : ℕ) → d < 10 → Known (zero_at false) decimal_value d
positive_digit zero h = (48, refl, refl)
positive_digit (suc zero) h = (49, refl, refl)
positive_digit (suc (suc zero)) h = (50, refl, refl)
positive_digit (suc (suc (suc zero))) h = (51, refl, refl)
positive_digit (suc (suc (suc (suc zero)))) h = (52, refl, refl)
positive_digit (suc (suc (suc (suc (suc zero))))) h = (53, refl, refl)
positive_digit (suc (suc (suc (suc (suc (suc zero)))))) h = (54, refl, refl)
positive_digit (suc (suc (suc (suc (suc (suc (suc zero))))))) h = (55, refl, refl)
positive_digit (suc (suc (suc (suc (suc (suc (suc (suc zero)))))))) h = (56, refl, refl)
positive_digit (suc (suc (suc (suc (suc (suc (suc (suc (suc zero))))))))) h = (57, refl, refl)
positive_digit (suc (suc (suc (suc (suc (suc (suc (suc (suc (suc k)))))))))) h =
    absurd (omega arith)

negative_digit : (d : ℕ) → d < 10 → Known (zero_at true) decimal_value d
negative_digit zero h = (48, refl, refl)
negative_digit (suc zero) h = (49, refl, refl)
negative_digit (suc (suc zero)) h = (50, refl, refl)
negative_digit (suc (suc (suc zero))) h = (51, refl, refl)
negative_digit (suc (suc (suc (suc zero)))) h = (52, refl, refl)
negative_digit (suc (suc (suc (suc (suc zero))))) h = (53, refl, refl)
negative_digit (suc (suc (suc (suc (suc (suc zero)))))) h = (54, refl, refl)
negative_digit (suc (suc (suc (suc (suc (suc (suc zero))))))) h = (55, refl, refl)
negative_digit (suc (suc (suc (suc (suc (suc (suc (suc zero)))))))) h = (56, refl, refl)
negative_digit (suc (suc (suc (suc (suc (suc (suc (suc (suc zero))))))))) h = (57, refl, refl)
negative_digit (suc (suc (suc (suc (suc (suc (suc (suc (suc (suc k)))))))))) h =
    absurd (omega arith)

hex_digit : (d : ℕ) → d < 16 → Known (λ lsd. in_table (get_elem? digits_hex lsd)) hex_value d
hex_digit zero h = (48, refl, refl)
hex_digit (suc zero) h = (49, refl, refl)
hex_digit (suc (suc zero)) h = (50, refl, refl)
hex_digit (suc (suc (suc zero))) h = (51, refl, refl)
hex_digit (suc (suc (suc (suc zero)))) h = (52, refl, refl)
hex_digit (suc (suc (suc (suc (suc zero))))) h = (53, refl, refl)
hex_digit (suc (suc (suc (suc (suc (suc zero)))))) h = (54, refl, refl)
hex_digit (suc (suc (suc (suc (suc (suc (suc zero))))))) h = (55, refl, refl)
hex_digit (suc (suc (suc (suc (suc (suc (suc (suc zero)))))))) h = (56, refl, refl)
hex_digit (suc (suc (suc (suc (suc (suc (suc (suc (suc zero))))))))) h = (57, refl, refl)
hex_digit (suc (suc (suc (suc (suc (suc (suc (suc (suc (suc zero)))))))))) h = (65, refl, refl)
hex_digit (suc (suc (suc (suc (suc (suc (suc (suc (suc (suc (suc zero))))))))))) h =
    (66, refl, refl)
hex_digit (suc (suc (suc (suc (suc (suc (suc (suc (suc (suc (suc (suc zero)))))))))))) h =
    (67, refl, refl)
hex_digit (suc (suc (suc (suc (suc (suc (suc (suc (suc (suc (suc (suc (suc zero))))))))))))) h =
    (68, refl, refl)
hex_digit (suc (suc (suc (suc (suc (suc (suc (suc (suc (suc (suc (suc (suc (suc zero))))))))))))))
      h =
    (69, refl, refl)
hex_digit
      (suc (suc (suc (suc (suc (suc (suc (suc (suc (suc (suc (suc (suc (suc (suc zero)))))))))))))))
      h =
    (70, refl, refl)
hex_digit
      (suc
        (suc (suc (suc (suc (suc (suc (suc (suc (suc (suc (suc (suc (suc (suc (suc k))))))))))))))))
      h =
    absurd (omega arith)

module _ (base : ℕ) (two : 1 < base) (digit : ℕ → Result ℕ) (value : ℕ → Option ℕ)
    (known : (d : ℕ) → d < base → Known digit value d) where
  smaller : (i p : ℕ) → i < p * base → i / base < p
  smaller i p h = (div-lt_iff_lt-mul (omega arith)).1 h

  last_digit : (i : ℕ) → i / base ≡ 0 → i % base ≡ i
  last_digit i e = omega (arith, mod-add-div' i base, ap (λ (q : ℕ). q * base) e)

  abbrev pub Written : ℕ → ℕ → Bytes → Result Bytes → Type 0
  Written k i written r =
      (ds : Bytes) × (r ≡ ok (written ++ ds))
      × (read_from base value 0 (reverse ds) ≡ some i)
      × (1 ≤ length ds)
      × (length ds ≤ k)

  read_one :
      (acc c d : ℕ) → value c ≡ some d → read_from base value acc (c ∷ []) ≡ some (acc * base + d)
  read_one acc c d e = rw e refl

  one_digit :
      (fuel i : ℕ) (written : Bytes)
      → i / base ≡ 0
      → Written (suc fuel) i written (convert_digits (suc fuel) base digit i written)
  unfolding convert_digits
  one_digit fuel i written e =
      let (c, found, means) = known (i % base) (mod-lt i (omega arith)) in
      (
        c ∷ [],
        rw (found, ==_of_eq (i / base) 0 e) refl,
        read_one 0 c (i % base) means ∙ ap some (omega (arith, last_digit i e)),
        omega arith,
        omega arith,
      )

  more_digits :
      (fuel i : ℕ) (written : Bytes)
      → (i / base == 0) ≡ false
      → ((written : Bytes)
          → Written fuel (i / base) written (convert_digits fuel base digit (i / base) written))
      → Written (suc fuel) i written (convert_digits (suc fuel) base digit i written)
  unfolding convert_digits
  more_digits fuel i written e rest =
      let (c, found, means) = known (i % base) (mod-lt i (omega arith)) in
      let (ds, r, reads, some_digit, short) = rest (written ++ (c ∷ [])) in
      (
        c ∷ ds,
        rw (found, e) (r ∙ ap ok (append_assoc written (c ∷ []) ds)),
        ap (read_from base value 0) (reverse-cons c ds)
            ∙ read_from-append base value 0 (i / base) (reverse ds) (c ∷ []) reads
            ∙ read_one (i / base) c (i % base) means
            ∙ ap some (omega (arith, mod-add-div' i base)),
        omega arith,
        omega (arith, short),
      )

  pub convert_digits-Written :
      (fuel i : ℕ) (written : Bytes)
      → i < base ^ suc fuel
      → Written (suc fuel) i written (convert_digits (suc fuel) base digit i written)
  convert_digits-Written zero i written h = one_digit zero i written (
      omega
        (arith, smaller i (base ^ 0) (subst (λ (p : ℕ). i < p) (pow-suc base 0) h), pow-zero base))
  convert_digits-Written (suc fuel) i written h = elim (Bool-cases (i / base == 0)) [
    | inl e ↦ one_digit (suc fuel) i written ((==_iff (i / base) 0).0 e)
    | inr e ↦ more_digits (suc fuel) i written e (λ written.
        convert_digits-Written fuel (i / base) written
          (smaller i (base ^ suc fuel) (subst (λ (p : ℕ). i < p) (pow-suc base (suc fuel)) h)))
  ]

-- Reading a decimal integer, with a sign if it is negative.
abbrev pub negated : ℕ → ℤ
negated n = if n == 0 then pos 0 else negsuc (n - 1)

abbrev pub read_integer : Bytes → Option ℤ
read_integer [] = none
read_integer (c ∷ cs) =
    if c == b'-'
    then Option.map negated (read_from 10 decimal_value 0 cs)
    else Option.map pos (read_from 10 decimal_value 0 (c ∷ cs))

length-reversed : (xs : Bytes) → length (reverse xs) ≡ length xs
length-reversed [] = refl
length-reversed (x ∷ xs) =
    ap length (reverse-cons x xs)
    ∙ omega (arith, length-append (reverse xs) (x ∷ []), length-reversed xs)

read_positive :
    (cs : Bytes) (n : ℕ)
    → 1 ≤ length cs
    → read_from 10 decimal_value 0 cs ≡ some n
    → read_integer cs ≡ some (pos n)
read_positive [] n h e = absurd (omega arith)
read_positive (c ∷ cs) n h e = elim (Bool-cases (c == b'-')) [
  | inl minus ↦
      let none_read =
        subst (λ c. read_from 10 decimal_value 0 (c ∷ cs) ≡ some n) ((==_iff c b'-').0 minus) e in
      absurd (cc)
  | inr digit ↦ rw (digit, e) refl
]

negate : (n : ℕ) → Option.map negated (some (n + 1)) ≡ some (negsuc n)
negate n = ground arith

-- `convert` of an integer whose magnitude fits 64 bits succeeds within its fuel, and its text has at most
-- 21 bytes and is read back as the integer.
pub convert_lem :
    (v : ℤ)
    → magnitude v < 2 ^ 64
    → (text : Bytes) × (convert v ≡ ok text) × (read_integer text ≡ some v) × (length text ≤ 21)
unfolding convert
convert_lem (pos n) h =
    let (ds, r, reads, some_digit, short) =
      convert_digits-Written 10 (omega arith) (zero_at false) decimal_value positive_digit 19 n []
        (omega arith) in
    (
      reverse ds,
      rw r refl,
      read_positive (reverse ds) n (omega (arith, length-reversed ds, some_digit)) reads,
      omega (arith, length-reversed ds, short),
    )
convert_lem (negsuc n) h =
    let (ds, r, reads, some_digit, short) =
      convert_digits-Written 10 (omega arith) (zero_at true) decimal_value negative_digit 19 (n + 1)
        [] (omega arith) in
    (
      b'-' ∷ reverse ds,
      rw r (ap ok (reverse-append ds (b'-' ∷ []))),
      ap (Option.map negated) reads ∙ negate n,
      omega (arith, length-reversed ds, short),
    )

-- `convertHex` of a number of 64 bits succeeds within its fuel, and its text has at most 16 digits and is
-- read back as the number.
pub convert_hex_lem :
    (n : ℕ)
    → n < 2 ^ 64
    → (text : Bytes) × (convert_hex n ≡ ok text)
      × (read_from 16 hex_value 0 text ≡ some n)
      × (length text ≤ 16)
unfolding convert_hex
convert_hex_lem n h =
    let (ds, r, reads, some_digit, short) =
      convert_digits-Written 16 (omega arith) (λ lsd. in_table (get_elem? digits_hex lsd)) hex_value
        hex_digit 15 n [] (omega arith) in
    (reverse ds, rw r refl, reads, omega (arith, length-reversed ds, short))
