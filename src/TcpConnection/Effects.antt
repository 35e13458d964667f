-- ===== src/TcpConnection/Effects.antt =====
-- What a list of effects holds: the bytes handed to the socket, and the calls of the callbacks.
use mathlib.Core.List.{append_assoc, append-nil}
use my_cisdi_code.Prelude.{
  Bool, Bytes, List, [], ap, false, refl, suc, sym, true, ℕ, ◌++◌, ◌∙◌, ◌∷◌, ◌≡◌,
}
use my_cisdi_code.TcpConnection.{
  Effect, close_called, connection_called, effect_if, high_water, sent, shutdown_write,
  write_complete,
}

abbrev pub sent_bytes : List Effect → Bytes
sent_bytes [] = []
sent_bytes (sent bytes ∷ es) = bytes ++ sent_bytes es
sent_bytes (write_complete ∷ es) = sent_bytes es
sent_bytes (_ ∷ es) = sent_bytes es

-- How often the connection callback is made.
abbrev pub connection_calls : List Effect → ℕ
connection_calls [] = 0
connection_calls (connection_called ∷ es) = suc (connection_calls es)
connection_calls (_ ∷ es) = connection_calls es

abbrev pub close_calls : List Effect → ℕ
close_calls [] = 0
close_calls (close_called ∷ es) = suc (close_calls es)
close_calls (_ ∷ es) = close_calls es

pub sent_bytes-append :
    (xs ys : List Effect) → sent_bytes (xs ++ ys) ≡ sent_bytes xs ++ sent_bytes ys
sent_bytes-append [] ys = refl
sent_bytes-append (sent bytes ∷ xs) ys =
    ap (◌++◌ bytes) (sent_bytes-append xs ys)
    ∙ sym (append_assoc bytes (sent_bytes xs) (sent_bytes ys))
sent_bytes-append (write_complete ∷ xs) ys = sent_bytes-append xs ys
sent_bytes-append (_ ∷ xs) ys = sent_bytes-append xs ys

-- A high-water mark adds no bytes.
pub sent_bytes-high_water :
    (xs : List Effect) (b : Bool) (n : ℕ)
    → sent_bytes (xs ++ effect_if b (high_water n)) ≡ sent_bytes xs
sent_bytes-high_water xs true n = sent_bytes-append xs _ ∙ append-nil (sent_bytes xs)
sent_bytes-high_water xs false n = ap sent_bytes (append-nil xs)

pub sent_bytes-write_complete :
    (b d : Bool) → sent_bytes (effect_if b write_complete ++ effect_if d shutdown_write) ≡ []
sent_bytes-write_complete true true = refl
sent_bytes-write_complete true false = refl
sent_bytes-write_complete false true = refl
sent_bytes-write_complete false false = refl
