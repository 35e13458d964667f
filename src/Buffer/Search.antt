-- ===== src/Buffer/Search.antt =====
-- The searches `findCRLF` and `findEOL` of muduo/net/Buffer.h. A result is an offset from `begin()`;
-- `none` is the null pointer.
use my_cisdi_code.Prelude.{
  Bool, Bool-cases, Bytes, Option, Result, [], ap, arith, check, drop, false, if◌then◌else◌, inl,
  inr, leb, length, none, ok, some, sub_size, take, ℕ, ◌&&◌, ◌++◌, ◌+◌, ◌==◌, ◌>>◌, ◌∙◌, ◌∷◌, ◌≡◌,
  ◌≢◌,
}
use my_cisdi_code.Buffer.{Buffer, to_string_piece}

-- `std::search` of "\r\n" in bytes that begin at the offset `i`.
unfoldable pub search_crlf : ℕ → Bytes → Option ℕ
search_crlf i [] = none
search_crlf i (x ∷ []) = none
search_crlf i (x ∷ y ∷ rest) =
    let later = search_crlf (i + 1) (y ∷ rest) in
    if (x == b'\r') && (y == b'\n') then some i else later

-- `memchr` in bytes that begin at the offset `i`.
unfoldable pub memchr : ℕ → ℕ → Bytes → Option ℕ
memchr c i [] = none
memchr c i (x ∷ rest) = let later = memchr c (i + 1) rest in if x == c then some i else later

-- The bytes from the offset `start` up to `beginWrite()`.
abbrev pub from_start : ℕ → Buffer → Bytes
from_start start b = take (sub_size b.writer_index start) (drop start b.buffer)

abbrev pub in_content : ℕ → Buffer → Bool
in_content start b = leb b.reader_index start && leb start b.writer_index

unfoldable pub find_crlf : Buffer → Option ℕ
find_crlf b = search_crlf b.reader_index (to_string_piece b)

unfoldable pub find_crlf_from : ℕ → Buffer → Result (Option ℕ)
find_crlf_from start b = do check (in_content start b); ok (search_crlf start (from_start start b))

unfoldable pub find_eol : Buffer → Option ℕ
find_eol b = memchr b'\n' b.reader_index (to_string_piece b)

unfoldable pub find_eol_from : ℕ → Buffer → Result (Option ℕ)
find_eol_from start b = do check (in_content start b); ok (memchr b'\n' start (from_start start b))

-- No "\r\n" stands anywhere in these bytes.
abbrev pub HasNoCrlf : Bytes → Type 0
HasNoCrlf xs = (before after : Bytes) → xs ≢ before ++ (b'\r' ∷ b'\n' ∷ after)

-- The first "\r\n" of `xs`, which begin at `i`, is at `j`: what is before it, with its "\r", has none.
pub record FirstCrlf (i j : ℕ) (xs : Bytes) : Type 0 where
  pub line : Bytes
  pub rest : Bytes
  pub splits : xs ≡ line ++ (b'\r' ∷ b'\n' ∷ rest)
  pub place : j ≡ i + length line
  pub first : HasNoCrlf (line ++ (b'\r' ∷ []))

abbrev Found : ℕ → Bytes → Option ℕ → Type 0
Found i xs none = HasNoCrlf xs
Found i xs (some j) = FirstCrlf i j xs

short-HasNoCrlf : (x : ℕ) → HasNoCrlf (x ∷ [])
short-HasNoCrlf x [] after e = cc
short-HasNoCrlf x (b ∷ []) after e = cc
short-HasNoCrlf x (b ∷ c ∷ before) after e = cc

nil-HasNoCrlf : HasNoCrlf []
nil-HasNoCrlf [] after e = cc
nil-HasNoCrlf (b ∷ before) after e = cc

cons-HasNoCrlf :
    (x y : ℕ) (xs : Bytes)
    → ((x == b'\r') && (y == b'\n')) ≡ false
    → HasNoCrlf (y ∷ xs)
    → HasNoCrlf (x ∷ y ∷ xs)
cons-HasNoCrlf x y xs t h [] after e = ground arith
cons-HasNoCrlf x y xs t h (b ∷ before) after e = h before after (ground arith)

cons-FirstCrlf :
    (i j x y : ℕ) (xs : Bytes)
    → ((x == b'\r') && (y == b'\n')) ≡ false
    → FirstCrlf (i + 1) j (y ∷ xs)
    → FirstCrlf i j (x ∷ y ∷ xs)
cons-FirstCrlf i j x y xs t f = record {
  line = x ∷ f.line;
  rest = f.rest;
  splits = ap (◌∷◌ x) f.splits;
  place = omega (arith, f.place);
  first = longer f.line f.splits f.first;
}
  where
    longer :
        (line : Bytes)
        → y ∷ xs ≡ line ++ (b'\r' ∷ b'\n' ∷ f.rest)
        → HasNoCrlf (line ++ (b'\r' ∷ []))
        → HasNoCrlf (x ∷ (line ++ (b'\r' ∷ [])))
    longer [] e h = cons-HasNoCrlf x b'\r' [] (ground arith) h
    longer (z ∷ line) e h = cons-HasNoCrlf x z (line ++ (b'\r' ∷ [])) (ground arith) h

search_crlf-Found : (i : ℕ) (xs : Bytes) → Found i xs (search_crlf i xs)
unfolding search_crlf
search_crlf-Found i [] = nil-HasNoCrlf
search_crlf-Found i (x ∷ []) = short-HasNoCrlf x
search_crlf-Found i (x ∷ y ∷ rest) = elim (Bool-cases ((x == b'\r') && (y == b'\n'))) [
  | inl hit ↦ rw hit (record {
    line = [];
    rest = rest;
    splits = ground arith;
    place = omega arith;
    first = short-HasNoCrlf b'\r';
  })
  | inr miss ↦
      rw miss (later (search_crlf (i + 1) (y ∷ rest)) miss (search_crlf-Found (i + 1) (y ∷ rest)))
]
  where
    later :
        (o : Option ℕ)
        → ((x == b'\r') && (y == b'\n')) ≡ false
        → Found (i + 1) (y ∷ rest) o
        → Found i (x ∷ y ∷ rest) o
    later none t h = cons-HasNoCrlf x y rest t h
    later (some j) t f = cons-FirstCrlf i j x y rest t f

-- `findCRLF` points to the first "\r\n" of the content.
pub find_crlf-some :
    (b : Buffer) {j : ℕ} → find_crlf b ≡ some j → FirstCrlf b.reader_index j (to_string_piece b)
unfolding find_crlf
find_crlf-some b e = rw e at (search_crlf-Found b.reader_index (to_string_piece b))

-- Where `findCRLF` returns null, the content holds no "\r\n".
pub find_crlf-none : (b : Buffer) → find_crlf b ≡ none → HasNoCrlf (to_string_piece b)
unfolding find_crlf
find_crlf-none b e = rw e at (search_crlf-Found b.reader_index (to_string_piece b))

-- A line that holds no "\r\n" is found up to its end.
pub search_crlf-append :
    (i : ℕ) (line rest : Bytes)
    → HasNoCrlf (line ++ (b'\r' ∷ []))
    → search_crlf i (line ++ (b'\r' ∷ b'\n' ∷ rest)) ≡ some (i + length line)
unfolding search_crlf
search_crlf-append i [] rest h = ap some (omega arith)
search_crlf-append i (x ∷ []) rest h = ground arith
search_crlf-append i (x ∷ y ∷ line) rest h =
    let tail =
      search_crlf-append (i + 1) (y ∷ line) rest
        (λ before after e. h (x ∷ before) after (ap (◌∷◌ x) e)) in
    elim (Bool-cases ((x == b'\r') && (y == b'\n'))) [
      | inl hit ↦ absurd (h [] (line ++ (b'\r' ∷ [])) (ground arith))
      | inr miss ↦ rw miss (tail ∙ ap some (omega arith))
    ]
