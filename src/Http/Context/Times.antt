-- ===== src/Http/Context/Times.antt =====
-- What the parser makes of the time that it is given: only the line of the request takes it.
use my_cisdi_code.Prelude.{
  Bool, Bool-cases, Bytes, Option, Result, ap, false, fault, inl, inr, length, none, ok, refl, some,
  subst, suc, sym, true, zero, ℕ, ◌==◌, ◌∙◌, ◌≡◌, ◌≢◌, ◌⊎◌,
}
use my_cisdi_code.Http.Context.{
  HttpContext, HttpRequestParseState, expect_body, expect_headers, expect_request_line, find,
  got_all, process_request_line,
}
use my_cisdi_code.Http.Context.Lines.{
  Reading, after_line, header_line, read, read_line, read_request, split_crlf, starved,
}
use my_cisdi_code.Http.Request.{HttpRequest, add_header}

pub read_request_spins :
    (s : HttpRequestParseState) (fuel time : ℕ) (c : HttpContext) (xs : Bytes)
    → c.state ≡ s
    → (s ≡ got_all) ⊎ (s ≡ expect_body)
    → read_request fuel time c xs ≡ starved
unfolding read_request read_line
read_request_spins s zero time c xs e h = refl
read_request_spins expect_body (suc fuel) time c xs e h =
    subst (λ s. read_line (read_request fuel time) s time c xs (split_crlf xs) ≡ starved) (sym e)
      (read_request_spins expect_body fuel time c xs e h)
read_request_spins got_all (suc fuel) time c xs e h =
    subst (λ s. read_line (read_request fuel time) s time c xs (split_crlf xs) ≡ starved) (sym e)
      (read_request_spins got_all fuel time c xs e h)
read_request_spins expect_request_line (suc fuel) time c xs e (inl h) = cc
read_request_spins expect_request_line (suc fuel) time c xs e (inr h) = cc
read_request_spins expect_headers (suc fuel) time c xs e (inl h) = cc
read_request_spins expect_headers (suc fuel) time c xs e (inr h) = cc

-- Behind the request line the time does not matter.
pub read_request-time :
    (fuel time later : ℕ) (c : HttpContext) (xs : Bytes)
    → c.state ≡ expect_headers
    → read_request fuel time c xs ≡ read_request fuel later c xs
unfolding read_request read_line header_line
read_request-time zero time later c xs e = refl
read_request-time (suc fuel) time later c xs e =
    subst
      (λ s.
        read_line (read_request fuel time) s time c xs (split_crlf xs)
        ≡ read_line (read_request fuel later) s later c xs (split_crlf xs))
      (sym e)
      (go (split_crlf xs)
        (λ r rest. read_request-time fuel time later (record c { request = r }) rest e))
  where
    go :
        (o : Option (Bytes × Bytes))
        → ((r : HttpRequest) (rest : Bytes)
            → read_request fuel time (record c { request = r }) rest
              ≡ read_request fuel later (record c { request = r }) rest)
        → read_line (read_request fuel time) expect_headers time c xs o
          ≡ read_line (read_request fuel later) expect_headers later c xs o
    go none ih = refl
    go (some (line, rest)) ih = elim (Bool-cases (find b':' line == length line)) [
      | inl last ↦ rw last refl
      | inr more ↦ rw more (ih (add_header line (find b':' line) c.request) rest)
    ]

abbrev state_of : Reading → HttpRequestParseState
state_of (read k c xs) = c.state
state_of _ = got_all

-- The request line is not waited for again.
headers_stay :
    (fuel time : ℕ) (c c' : HttpContext) (xs rest : Bytes)
    → c.state ≡ expect_headers
    → read_request fuel time c xs ≡ read true c' rest
    → c'.state ≢ expect_request_line
unfolding read_request read_line header_line
headers_stay zero time c c' xs rest e q = λ h. cc
headers_stay (suc fuel) time c c' xs rest e q =
    go (split_crlf xs) (λ r xs q. headers_stay fuel time (record c { request = r }) c' xs rest e q)
      (subst
        (λ s. read_line (read_request fuel time) s time c xs (split_crlf xs) ≡ read true c' rest) e
        q)
  where
    go :
        (o : Option (Bytes × Bytes))
        → ((r : HttpRequest) (ys : Bytes)
            → read_request fuel time (record c { request = r }) ys ≡ read true c' rest
            → c'.state ≢ expect_request_line)
        → read_line (read_request fuel time) expect_headers time c xs o ≡ read true c' rest
        → c'.state ≢ expect_request_line
    go none ih q = λ h. absurd (cc (sym e ∙ ap state_of q ∙ h))
    go (some (line, ys)) ih q = elim (Bool-cases (find b':' line == length line)) [
      | inl last ↦ λ h. absurd (cc (ap state_of (rw last at q) ∙ h))
      | inr more ↦ ih (add_header line (find b':' line) c.request) ys (rw more at q)
    ]

-- A call that leaves the context waiting for the request line does the same at any time.
pub read_request-unstamped :
    (fuel time later : ℕ) (c c' : HttpContext) (xs rest : Bytes)
    → c'.state ≡ expect_request_line
    → read_request fuel time c xs ≡ read true c' rest
    → read_request fuel later c xs ≡ read true c' rest
unfolding read_request read_line after_line
read_request-unstamped zero time later c c' xs rest w q = q
read_request-unstamped (suc fuel) time later c c' xs rest w q = go c.state refl
  where
    line_read :
        (p : Result (Bool × HttpRequest)) (ys : Bytes)
        → after_line (read_request fuel time) time c xs ys p ≡ read true c' rest
        → after_line (read_request fuel later) later c xs ys p ≡ read true c' rest
    line_read (fault e) ys h = h
    line_read (ok (false, r)) ys h = h
    line_read (ok (true, r)) ys h = absurd (headers_stay fuel time _ c' ys rest refl h w)

    cut :
        (o : Option (Bytes × Bytes))
        → read_line (read_request fuel time) expect_request_line time c xs o ≡ read true c' rest
        → read_line (read_request fuel later) expect_request_line later c xs o ≡ read true c' rest
    cut none h = h
    cut (some (line, ys)) h = line_read (process_request_line line c.request) ys h

    go :
        (s : HttpRequestParseState)
        → c.state ≡ s
        → read_line (read_request fuel later) c.state later c xs (split_crlf xs) ≡ read true c' rest
    go expect_request_line e =
        subst
          (λ s.
            read_line (read_request fuel later) s later c xs (split_crlf xs) ≡ read true c' rest)
          (sym e)
          (cut (split_crlf xs) (
            subst
              (λ s.
                read_line (read_request fuel time) s time c xs (split_crlf xs) ≡ read true c' rest)
              e q))
    go expect_headers e = absurd (headers_stay (suc fuel) time c c' xs rest e q w)
    go expect_body e =
        absurd (cc (sym q ∙ read_request_spins expect_body (suc fuel) time c xs e (inr refl)))
    go got_all e =
        absurd (cc (sym q ∙ read_request_spins got_all (suc fuel) time c xs e (inl refl)))
