-- ===== src/Http/Context/Total.antt =====
-- Where the loop of `parseRequest` ends, and where it does not.
use my_cisdi_code.Prelude.{
  Bool, Bool-cases, Bytes, Option, ap, arith, drop, false, if◌then◌else◌, inl, inr, length,
  length-append, none, not, ok, refl, some, subst, suc, sym, take, true, zero, ℕ, ◌++◌, ◌+◌, ◌<◌,
  ◌==◌, ◌∷◌, ◌≡◌, ◌⊎◌,
}
use my_cisdi_code.Buffer.{Buffer, readable_bytes, to_string_piece}
use my_cisdi_code.Buffer.Invariant.{IsValid, length-to_string_piece, readable_bytes_lem}
use my_cisdi_code.Http.Request.{HttpRequest, Method, invalid, is_invalid, method_of}
use my_cisdi_code.Http.Context.{
  HttpContext, HttpRequestParseState, Parse, done, expect_body, expect_headers, expect_request_line,
  failed, find, got_all, out_of_fuel, parse_request, parse_step, process_request_line,
  process_target,
}
use my_cisdi_code.Http.Context.Lines.{
  Agrees, Reading, after_line, header_line, parse_request-Agrees, read, read_line, read_request,
  split_crlf, split_crlf-Splits,
}

-- A context in which a call may be made: no method was set before the request line is complete.
abbrev pub Ready : HttpRequestParseState → Method → Type 0
Ready expect_request_line m = m ≡ invalid
Ready expect_headers m = Unit {0}
Ready expect_body m = ⊥
Ready got_all m = ⊥

abbrev pub IsReady : HttpContext → Type 0
IsReady c = Ready c.state c.request.method

abbrev pub Ends : Reading → Type 0
Ends r = (k : Bool) × (c : HttpContext) × (rest : Bytes) × (r ≡ read k c rest)

-- The lines get shorter.
pub split_crlf-length :
    (xs line rest : Bytes) → split_crlf xs ≡ some (line, rest) → length rest < length xs
split_crlf-length xs line rest e =
    let s : xs ≡ line ++ (b'\r' ∷ b'\n' ∷ rest) = rw e at (split_crlf-Splits xs) in
    omega (arith, ap length s, length-append line (b'\r' ∷ b'\n' ∷ rest))

process_request_line_total :
    (line : Bytes) (r : HttpRequest)
    → r.method ≡ invalid
    → (k : Bool) × (r' : HttpRequest) × (process_request_line line r ≡ ok (k, r'))
unfolding process_request_line is_invalid
process_request_line_total line r e = elim (Bool-cases (find b' ' line == length line)) [
  | inl none_found ↦ (false, r, rw none_found)
  | inr found ↦ (parsed.0, parsed.1, rw (found, e))
]
  where
    known : HttpRequest
    known = record r { method = method_of (take (find b' ' line) line) }

    parsed : Bool × HttpRequest
    parsed =
        if not (is_invalid known.method)
        then process_target (drop (find b' ' line + 1) line) known
        else (false, known)

read_line-Ends :
    (continue : HttpContext → Bytes → Reading) (n : ℕ)
    → ((c : HttpContext) (xs : Bytes) → IsReady c → length xs < n → Ends (continue c xs))
    → (s : HttpRequestParseState) (time : ℕ) (c : HttpContext) (xs : Bytes) → c.state ≡ s
    → Ready s c.request.method
    → (o : Option (Bytes × Bytes)) → ((line rest : Bytes) → o ≡ some (line, rest) → length rest < n)
    → Ends (read_line continue s time c xs o)
unfolding read_line header_line
read_line-Ends continue n go expect_body time c xs e h o less = absurd h
read_line-Ends continue n go got_all time c xs e h o less = absurd h
read_line-Ends continue n go expect_request_line time c xs s h none less = (true, c, xs, refl)
read_line-Ends continue n go expect_headers time c xs s h none less = (true, c, xs, refl)
read_line-Ends continue n go expect_request_line time c xs s h (some (line, rest)) less =
    let (k, r, e) = process_request_line_total line c.request h in rw e (cases k r)
  where
    cases : (k : Bool) (r : HttpRequest) → Ends (after_line continue time c xs rest (ok (k, r)))
    cases false r = (false, record c { request = r }, xs, refl)
    cases true r = go _ rest tt (less line rest refl)
read_line-Ends continue n go expect_headers time c xs s h (some (line, rest)) less =
    elim (Bool-cases (find b':' line == length line)) [
      | inl last ↦ (true, record c { state = got_all }, rest, rw (last, header_line))
      | inr more ↦ rw (more, header_line) (go _ rest (rw s tt) (less line rest refl))
    ]

read_request-Ends :
    (fuel time : ℕ) (c : HttpContext) (xs : Bytes)
    → IsReady c
    → length xs < fuel
    → Ends (read_request fuel time c xs)
unfolding read_request
read_request-Ends zero time c xs h n = absurd (omega arith)
read_request-Ends (suc fuel) time c xs h n =
    read_line-Ends (read_request fuel time) fuel (read_request-Ends fuel time) c.state time c xs
      refl h (split_crlf xs) (λ line rest e. omega (arith, split_crlf-length xs line rest e))

Agrees-done :
    (p : Parse) (k : Bool) (c : HttpContext) (rest : Bytes)
    → Agrees p (read k c rest)
    → (k' : Bool) × (c' : HttpContext) × (b' : Buffer) × (p ≡ done k' c' b') × IsValid b'
Agrees-done (done k' c' b') k c rest a = (k', c', b', refl, a.2)
Agrees-done (failed e) k c rest a = absurd a
Agrees-done out_of_fuel k c rest a = absurd a

-- Called in a context that waits for a request line or for headers, `parseRequest` returns: no
-- assertion fails, the loop ends within a round for each byte and one more, and the buffer is valid.
pub parse_request_total :
    (fuel time : ℕ) (c : HttpContext) (b : Buffer)
    → IsValid b
    → IsReady c
    → readable_bytes b < fuel
    → (k : Bool) × (c' : HttpContext) × (b' : Buffer) × (parse_request fuel time c b ≡ done k c' b')
      × IsValid b'
parse_request_total fuel time c b v h n =
    let n' : length (to_string_piece b) < fuel =
      omega (arith, readable_bytes_lem b v, length-to_string_piece b v) in
    let (k, c', rest, e) = read_request-Ends fuel time c (to_string_piece b) h n' in
    Agrees-done (parse_request fuel time c b) k c' rest
      (rw e at (parse_request-Agrees fuel time c b v))

-- Called in the state `got_all` or `expect_body`, the loop never ends: every amount of fuel runs out.
pub parse_request_spins :
    (fuel time : ℕ) (c : HttpContext) (b : Buffer)
    → (c.state ≡ got_all) ⊎ (c.state ≡ expect_body)
    → parse_request fuel time c b ≡ out_of_fuel
unfolding parse_request
parse_request_spins zero time c b h = refl
parse_request_spins (suc fuel) time c b (inl e) =
    subst (λ s. parse_step (parse_request fuel time) s time c b ≡ out_of_fuel) (sym e)
      (unfold parse_step in parse_request_spins fuel time c b (inl e))
parse_request_spins (suc fuel) time c b (inr e) =
    subst (λ s. parse_step (parse_request fuel time) s time c b ≡ out_of_fuel) (sym e)
      (unfold parse_step in parse_request_spins fuel time c b (inr e))
