-- ===== src/Http/Server/Answer.antt =====
-- A request on the wire and the answer to it.
use my_cisdi_code.Prelude.{
  Bytes, List, [], ap, arith, length, length-replicate, ok, refl, replicate, ℕ, ◌++◌, ◌+◌, ◌<◌, ◌^◌,
  ◌∙◌, ◌∷◌, ◌≡◌, ◌≢◌, ◌≤◌,
}
use my_cisdi_code.Buffer.{Buffer, cheap_prepend, init, initial_size, to_string_piece}
use my_cisdi_code.Buffer.Invariant.{IsValid}
use my_cisdi_code.Http.Request.{HttpRequest, invalid, unknown}
use my_cisdi_code.Http.Context.{new_context}
use my_cisdi_code.Http.Context.RoundTrip.{
  AreHeaders, IsTarget, parse_request-request_text, put_headers, request_text,
}
use my_cisdi_code.Http.Server.{
  Effect, HttpResponse, after_request, effect_if, handled, new_response, on_message, on_request,
  sent, shut_down, wants_close,
}
use my_cisdi_code.Http.Server.Response.{append_to_buffer_lem, response_text}

-- The buffer that `onRequest` makes.
new_buffer_lem :
    (b : Buffer) × (init initial_size ≡ ok b)
    × IsValid b
    × (b.reader_index ≡ cheap_prepend)
    × (b.writer_index ≡ cheap_prepend)
    × (to_string_piece b ≡ [])
unfolding init
new_buffer_lem = (
  record { buffer = replicate 1032 0; reader_index = cheap_prepend; writer_index = cheap_prepend },
  refl,
  record {
    ordered = omega arith;
    bounded = omega (arith, length-replicate {A = ℕ} 1032 0);
    small = omega (arith, length-replicate {A = ℕ} 1032 0);
    roomy = omega (arith, length-replicate {A = ℕ} 1032 0);
  },
  refl,
  refl,
  refl,
)

module _ (decimal : ℕ → Bytes) (short : (n : ℕ) → n < 2 ^ 31 → length (decimal n) ≤ 10)
    (http_callback : HttpRequest → HttpResponse → HttpResponse) where
  abbrev pub response_to : HttpRequest → HttpResponse
  response_to req = http_callback req (new_response (wants_close req))

  abbrev pub effects_of : HttpResponse → List Effect
  effects_of r = sent (response_text decimal r) ∷ effect_if r.close_connection shut_down

  on_request_lem :
      (req : HttpRequest)
      → (response_to req).status_code < 2 ^ 31
      → cheap_prepend + length (response_text decimal (response_to req)) < 2 ^ 31
      → on_request decimal http_callback req ≡ ok (effects_of (response_to req))
  unfolding on_request
  on_request_lem req code fits =
      let (b, e, v, left, low, none_yet) = new_buffer_lem in
      let (b', e', v', c) =
        append_to_buffer_lem decimal short (response_to req) b v (omega (arith, left)) code
          (omega (arith, low, fits)) in
      rw (e, e')
        (ap (λ xs. ok (sent xs ∷ effect_if (response_to req).close_connection shut_down))
          (c ∙ ap (λ xs. xs ++ response_text decimal (response_to req)) none_yet))

  -- A well-formed request on the wire, with anything behind it, that comes to a connection which waits for
  -- one, where the response stays below 2 ^ 31 bytes and numbers below 2 ^ 31, its status code among
  -- them, are printed in at most ten bytes: `onMessage` sends just the text of the response that the callback makes of the request, shuts
  -- the connection down just where the response says so, has the context ready for the next request,
  -- and leaves in the buffer just what is behind the request.
  pub on_message-request_text :
      (fuel time : ℕ) (r : HttpRequest) (hs : List (Bytes × Bytes)) (rest : Bytes) (b : Buffer)
      → IsValid b
      → r.method ≢ invalid
      → r.version ≢ unknown
      → IsTarget r.path r.query
      → AreHeaders hs
      → to_string_piece b ≡ request_text r hs rest
      → length hs + 1 < fuel
      → let req = record r { receive_time = time; headers = put_headers hs [] } in
        (response_to req).status_code < 2 ^ 31
        → cheap_prepend + length (response_text decimal (response_to req)) < 2 ^ 31
        → (b' : Buffer) × (on_message decimal fuel time http_callback new_context b
            ≡ handled new_context b' (effects_of (response_to req)))
          × IsValid b'
          × (to_string_piece b' ≡ rest)
  unfolding on_message
  on_message-request_text fuel time r hs rest b v m ver t h e n code fits =
      let (b', parsed, v', c) = parse_request-request_text fuel time r hs rest b v m ver t h e n in
      (
        b',
        rw parsed (
            ap (after_request [] b') (
              on_request_lem (record r { receive_time = time; headers = put_headers hs [] }) code
                fits)),
        v',
        c,
      )
