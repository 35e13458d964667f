-- ===== src/Http/Context/Chunks.antt =====
-- A request that arrives in pieces: the parser may be called on any prefix first.
use my_cisdi_code.Prelude.{
  Bool, Bool-cases, Bytes, Option, Result, [], ap, arith, false, fault, if◌then◌else◌, inl, inr,
  length, length-append, none, ok, refl, some, subst, suc, sym, true, zero, ℕ, ◌&&◌, ◌++◌, ◌+◌, ◌<◌,
  ◌==◌, ◌∙◌, ◌∷◌, ◌≡◌, ◌≢◌, ◌≤◌, ◌⊎◌,
}
use my_cisdi_code.Http.Context.{
  HttpContext, HttpRequestParseState, Parse, done, expect_body, expect_headers, expect_request_line,
  failed, find, got_all, out_of_fuel, parse_request, process_request_line,
}
use my_cisdi_code.Http.Context.Lines.{
  Agrees, Reading, after_line, fails, header_line, header_round, longer, parse_request-Agrees, read,
  read_line, read_request, request_line_round, split_crlf, starved,
}
use my_cisdi_code.Http.Context.Times.{read_request-time, read_request-unstamped, read_request_spins}
use my_cisdi_code.Http.Request.{HttpRequest}
use my_cisdi_code.Http.Context.Total.{split_crlf-length}
use my_cisdi_code.Buffer.{Buffer, readable_bytes, to_string_piece}
use my_cisdi_code.Buffer.Invariant.{IsValid, length-to_string_piece, readable_bytes_lem}

-- A line that is complete stays the first one when more bytes follow.
split_crlf-append :
    (xs ys line rest : Bytes)
    → split_crlf xs ≡ some (line, rest)
    → split_crlf (xs ++ ys) ≡ some (line, rest ++ ys)
unfolding split_crlf
split_crlf-append [] ys line rest e = cc
split_crlf-append (x ∷ []) ys line rest e = cc
split_crlf-append (x ∷ y ∷ xs) ys line rest e = elim (Bool-cases ((x == b'\r') && (y == b'\n'))) [
  | inl hit ↦ rw hit (ground arith)
  | inr miss ↦
      rw miss (later (split_crlf (y ∷ xs)) refl (split_crlf-append (y ∷ xs) ys) (rw miss at e))
]
  where
    later :
        (o : Option (Bytes × Bytes))
        → split_crlf (y ∷ xs) ≡ o
        → ((l r : Bytes)
            → split_crlf (y ∷ xs) ≡ some (l, r)
            → split_crlf (y ∷ (xs ++ ys)) ≡ some (l, r ++ ys))
        → longer x o ≡ some (line, rest)
        → longer x (split_crlf (y ∷ (xs ++ ys))) ≡ some (line, rest ++ ys)
    later none p ih q = cc
    later (some (l, r)) p ih q = rw (ih l r p) (ground arith)

after_line_ext :
    (k k' : HttpContext → Bytes → Reading) (time : ℕ) (c : HttpContext) (xs rest : Bytes)
    → ((c : HttpContext) → k c rest ≡ k' c rest)
    → (p : Result (Bool × HttpRequest))
    → after_line k time c xs rest p ≡ after_line k' time c xs rest p
unfolding after_line
after_line_ext k k' time c xs rest h (fault e) = refl
after_line_ext k k' time c xs rest h (ok (false, r)) = refl
after_line_ext k k' time c xs rest h (ok (true, r)) = h _

-- A round looks at the rounds to come only where fewer bytes are left, or where it spins.
read_line_ext :
    (k k' : HttpContext → Bytes → Reading) (n : ℕ)
    → ((c : HttpContext) (xs : Bytes) → length xs < n → k c xs ≡ k' c xs)
    → (s : HttpRequestParseState) (time : ℕ) (c : HttpContext) (xs : Bytes)
    → ((s ≡ got_all) ⊎ (s ≡ expect_body) → k c xs ≡ k' c xs)
    → (o : Option (Bytes × Bytes)) → ((line rest : Bytes) → o ≡ some (line, rest) → length rest < n)
    → read_line k s time c xs o ≡ read_line k' s time c xs o
unfolding read_line header_line
read_line_ext k k' n h expect_body time c xs spin o less = spin (inr refl)
read_line_ext k k' n h got_all time c xs spin o less = spin (inl refl)
read_line_ext k k' n h expect_request_line time c xs spin none less = refl
read_line_ext k k' n h expect_headers time c xs spin none less = refl
read_line_ext k k' n h expect_request_line time c xs spin (some (line, rest)) less =
    after_line_ext k k' time c xs rest (λ c. h c rest (less line rest refl))
      (process_request_line line c.request)
read_line_ext k k' n h expect_headers time c xs spin (some (line, rest)) less =
    ap
      (λ r.
        if find b':' line == length line then read true (record c { state = got_all }) rest else r)
      (h _ rest (less line rest refl))

-- More fuel than bytes makes no difference.
read_request-suc :
    (fuel time : ℕ) (c : HttpContext) (xs : Bytes)
    → length xs < fuel
    → read_request (suc fuel) time c xs ≡ read_request fuel time c xs
unfolding read_request
read_request-suc zero time c xs n = absurd (omega arith)
read_request-suc (suc fuel) time c xs n =
    read_line_ext (read_request (suc fuel) time) (read_request fuel time) fuel
      (read_request-suc fuel time) c.state time c xs
      (λ h.
        read_request_spins c.state (suc fuel) time c xs refl h
        ∙ sym (read_request_spins c.state fuel time c xs refl h))
      (split_crlf xs) (λ line rest e. omega (arith, split_crlf-length xs line rest e))

-- What a call leaves when it wants more bytes: the same as before, or what is left after a round.
data Rounds (f time : ℕ) (c c' : HttpContext) (xs rest : Bytes) : Type 0 where
  stay : c ≡ c' → xs ≡ rest → Rounds f time c c' xs rest
  step :
      (c₁ : HttpContext) (line rest₁ : Bytes)
      → split_crlf xs ≡ some (line, rest₁)
      → read_request f time c₁ rest₁ ≡ read true c' rest
      → ((g : ℕ) (ys : Bytes)
          → read_request (suc g) time c (xs ++ ys) ≡ read_request g time c₁ (rest₁ ++ ys))
      → Rounds f time c c' xs rest

module _ (f time : ℕ) (c c' : HttpContext) (xs rest : Bytes) (more : c'.state ≢ got_all) where
  line_Rounds :
      (line rest₁ : Bytes) (p : Result (Bool × HttpRequest))
      → c.state ≡ expect_request_line
      → split_crlf xs ≡ some (line, rest₁)
      → process_request_line line c.request ≡ p
      → after_line (read_request f time) time c xs rest₁ p ≡ read true c' rest
      → Rounds f time c c' xs rest
  unfolding after_line
  line_Rounds line rest₁ (fault e) s first p h = cc
  line_Rounds line rest₁ (ok (false, r)) s first p h = cc
  line_Rounds line rest₁ (ok (true, r)) s first p h = step _ line rest₁ first h λ g ys.
      request_line_round g time c (xs ++ ys) line (rest₁ ++ ys)
        (split_crlf-append xs ys line rest₁ first) r s p

  header_Rounds :
      (line rest₁ : Bytes)
      → c.state ≡ expect_headers
      → split_crlf xs ≡ some (line, rest₁)
      → header_line (read_request f time) c line rest₁ ≡ read true c' rest
      → Rounds f time c c' xs rest
  unfolding header_line
  header_Rounds line rest₁ s first h = elim (Bool-cases (find b':' line == length line)) [
    | inl last ↦ absurd (more (ground arith))
    | inr colon ↦ step _ line rest₁ first (rw colon at h) λ g ys.
        header_round g time c (xs ++ ys) line (rest₁ ++ ys)
          (split_crlf-append xs ys line rest₁ first) s colon
  ]

  step_Rounds :
      (s : HttpRequestParseState) (o : Option (Bytes × Bytes))
      → c.state ≡ s
      → split_crlf xs ≡ o
      → read_line (read_request f time) s time c xs o ≡ read true c' rest
      → Rounds f time c c' xs rest
  unfolding read_line
  step_Rounds expect_body o s e h =
      let spins = read_request_spins c.state f time c xs refl (inr s) in cc
  step_Rounds got_all o s e h =
      let spins = read_request_spins c.state f time c xs refl (inl s) in cc
  step_Rounds expect_request_line none s e h = stay (cc) (cc)
  step_Rounds expect_headers none s e h = stay (cc) (cc)
  step_Rounds expect_request_line (some (line, rest₁)) s e h =
      line_Rounds line rest₁ (process_request_line line c.request) s e refl h
  step_Rounds expect_headers (some (line, rest₁)) s e h = header_Rounds line rest₁ s e h

read_request-Rounds :
    (f time : ℕ) (c c' : HttpContext) (xs rest : Bytes)
    → c'.state ≢ got_all
    → read_request (suc f) time c xs ≡ read true c' rest
    → Rounds f time c c' xs rest
unfolding read_request
read_request-Rounds f time c c' xs rest more =
    step_Rounds f time c c' xs rest more c.state (split_crlf xs) refl refl

abbrev Appends : ℕ → ℕ → ℕ → HttpContext → HttpContext → Bytes → Bytes → Bytes → Type 0
Appends f g time c c' xs ys rest =
    read_request f time c xs ≡ read true c' rest
    → c'.state ≢ got_all
    → length (xs ++ ys) < g
    → (length rest ≤ length xs)
      × (read_request g time c (xs ++ ys) ≡ read_request g time c' (rest ++ ys))

resume :
    (f g time : ℕ) (c c' : HttpContext) (xs ys rest : Bytes)
    → length (xs ++ ys) < suc g
    → ((c c' : HttpContext) (xs ys rest : Bytes) → Appends f g time c c' xs ys rest)
    → Rounds f time c c' xs rest
    → c'.state ≢ got_all
    → (length rest ≤ length xs)
      × (read_request (suc g) time c (xs ++ ys) ≡ read_request (suc g) time c' (rest ++ ys))
resume f g time c c' xs ys rest n ih (stay p q) more = (
  omega (arith, ap length q),
  ap (λ c. read_request (suc g) time c (xs ++ ys)) p
      ∙ ap (λ xs. read_request (suc g) time c' (xs ++ ys)) q,
)
resume f g time c c' xs ys rest n ih (step c₁ line rest₁ first h round) more =
    let shorter : length rest₁ < length xs = split_crlf-length xs line rest₁ first in
    let before : length (xs ++ ys) ≡ length xs + length ys = length-append xs ys in
    let after : length (rest₁ ++ ys) ≡ length rest₁ + length ys = length-append rest₁ ys in
    let (less, same) = ih c₁ c' rest₁ ys rest h more (omega arith) in
    let left : length (rest ++ ys) ≡ length rest + length ys = length-append rest ys in
    (omega arith, round g ys ∙ same ∙ sym (read_request-suc g time c' (rest ++ ys) (omega arith)))

-- The rounds on a prefix are the first rounds on the whole.
pub read_request-append :
    (f g time : ℕ) (c c' : HttpContext) (xs ys rest : Bytes) → Appends f g time c c' xs ys rest
read_request-append zero g time c c' xs ys rest e more n = unfold read_request in cc
read_request-append (suc f) zero time c c' xs ys rest e more n = absurd (omega arith)
read_request-append (suc f) (suc g) time c c' xs ys rest e more n =
    resume f g time c c' xs ys rest n (read_request-append f g time)
      (read_request-Rounds f time c c' xs rest more e) more

-- Two outcomes of the parser that a client cannot tell apart.
abbrev pub SameParse : Parse → Parse → Type 0
SameParse (done k c b) (done k' c' b') =
    (k ≡ k') × (c ≡ c') × (to_string_piece b ≡ to_string_piece b')
SameParse (failed e) (failed e') = e ≡ e'
SameParse out_of_fuel out_of_fuel = Unit {0}
SameParse _ _ = ⊥

Agrees-SameParse : (p q : Parse) (r : Reading) → Agrees p r → Agrees q r → SameParse p q
Agrees-SameParse (done k c b) (done k' c' b') (read m d xs) a a' =
    (a.0 ∙ sym a'.0, a.1 ∙ sym a'.1, a.3 ∙ sym a'.3)
Agrees-SameParse (failed e) (failed e') (fails m) a a' = a ∙ sym a'
Agrees-SameParse out_of_fuel out_of_fuel starved a a' = tt
Agrees-SameParse _ _ _ a a' = ground arith

Agrees-read :
    (k : Bool) (c : HttpContext) (b : Buffer) (r : Reading)
    → Agrees (done k c b) r
    → r ≡ read k c (to_string_piece b)
Agrees-read k c b (read k' c' xs) a = λ i. read (sym a.0 i) (sym a.1 i) (sym a.3 i)
Agrees-read k c b (fails e) a = absurd a
Agrees-read k c b starved a = absurd a

-- The time that a request gets which came in two pieces: that of the call that completes its first line.
abbrev pub stamp : HttpRequestParseState → ℕ → ℕ → ℕ
stamp expect_request_line time later = later
stamp _ time later = time

-- Where the two calls have times of their own.
later-append :
    (s : HttpRequestParseState) (f g time later : ℕ) (c c₁ : HttpContext) (xs ys rest : Bytes)
    → c₁.state ≡ s
    → read_request f time c xs ≡ read true c₁ rest
    → s ≢ got_all
    → length (xs ++ ys) < g
    → read_request g (stamp s time later) c (xs ++ ys) ≡ read_request g later c₁ (rest ++ ys)
later-append expect_request_line f g time later c c₁ xs ys rest s e more n =
    (read_request-append f g later c c₁ xs ys rest
      (read_request-unstamped f time later c c₁ xs rest s e) (λ h. more (sym s ∙ h)) n).1
later-append expect_headers f g time later c c₁ xs ys rest s e more n =
    (read_request-append f g time c c₁ xs ys rest e (λ h. more (sym s ∙ h)) n).1
    ∙ read_request-time g time later c₁ (rest ++ ys) s
later-append expect_body f g time later c c₁ xs ys rest s e more n =
    (read_request-append f g time c c₁ xs ys rest e (λ h. more (sym s ∙ h)) n).1
    ∙ read_request_spins expect_body g time c₁ (rest ++ ys) s (inr refl)
    ∙ sym (read_request_spins expect_body g later c₁ (rest ++ ys) s (inr refl))
later-append got_all f g time later c c₁ xs ys rest s e more n = absurd (more refl)

-- A request may arrive in pieces, each with its own time. If a call on the first bytes wants more, then
-- the call on these bytes and the next ones together, and a second call at a later time once the next
-- ones are appended to what the first call left, come to the same result, context and content, where
-- the one call has the time of the first of the two if that one took the request line, and else the
-- time of the second.
pub parse_request-append :
    (f g time later : ℕ) (c c₁ : HttpContext) (b₁ b₂ b₃ b : Buffer) (ys : Bytes)
    → IsValid b₁
    → parse_request f time c b₁ ≡ done true c₁ b₂
    → c₁.state ≢ got_all
    → IsValid b₃
    → to_string_piece b₃ ≡ to_string_piece b₂ ++ ys
    → IsValid b
    → to_string_piece b ≡ to_string_piece b₁ ++ ys
    → readable_bytes b < g
    → SameParse (parse_request g (stamp c₁.state time later) c b) (parse_request g later c₁ b₃)
parse_request-append f g time later c c₁ b₁ b₂ b₃ b ys v₁ e more v₃ e₃ v e' n =
    Agrees-SameParse (parse_request g first_time c b) (parse_request g later c₁ b₃)
      (read_request g later c₁ (to_string_piece b₃))
      (subst (Agrees (parse_request g first_time c b)) same
        (parse_request-Agrees g first_time c b v))
      (parse_request-Agrees g later c₁ b₃ v₃)
  where
    first_time : ℕ
    first_time = stamp c₁.state time later

    first : read_request f time c (to_string_piece b₁) ≡ read true c₁ (to_string_piece b₂)
    first = Agrees-read true c₁ b₂ (read_request f time c (to_string_piece b₁)) (
        subst (λ p. Agrees p (read_request f time c (to_string_piece b₁))) e
          (parse_request-Agrees f time c b₁ v₁))

    enough : length (to_string_piece b₁ ++ ys) < g
    enough = omega (arith, ap length e', readable_bytes_lem b v, length-to_string_piece b v)

    same :
        read_request g first_time c (to_string_piece b)
        ≡ read_request g later c₁ (to_string_piece b₃)
    same =
        ap (read_request g first_time c) e'
        ∙ later-append c₁.state f g time later c c₁ (to_string_piece b₁) ys (to_string_piece b₂)
            refl first more enough
        ∙ ap (read_request g later c₁) (sym e₃)
