-- ===== src/Channel/Dispatch.antt =====
-- Which callbacks an event makes, and in which order.
use my_cisdi_code.Prelude.{
  Bool, Bool-cases, List, [], arith, false, inl, inr, not, suc, true, ℕ, ◌&&◌, ◌++◌, ◌<◌, ◌||◌, ◌∷◌,
  ◌≡◌,
}
use my_cisdi_code.Channel.{
  Callback, Channel, call_if, handle_event, on_close, on_error, on_read, on_write,
}

abbrev pub calls : Callback → List Callback → ℕ
calls cb [] = 0
calls on_read (on_read ∷ cs) = suc (calls on_read cs)
calls on_write (on_write ∷ cs) = suc (calls on_write cs)
calls on_close (on_close ∷ cs) = suc (calls on_close cs)
calls on_error (on_error ∷ cs) = suc (calls on_error cs)
calls cb (c ∷ cs) = calls cb cs

abbrev rank : Callback → ℕ
rank on_close = 0
rank on_error = 1
rank on_read = 2
rank on_write = 3

-- Each kind comes at most once, and they come in the order close, error, read, write.
abbrev pub InOrder : List Callback → Type 0
InOrder [] = Unit {0}
InOrder (c ∷ []) = Unit {0}
InOrder (c ∷ d ∷ cs) = (rank c < rank d) × InOrder (d ∷ cs)

abbrev bit : Bool → ℕ
bit true = 1
bit false = 0

abbrev Dispatched : Bool → Bool → Bool → Bool → List Callback → Type 0
Dispatched a b c d cs =
    InOrder cs
    × (calls on_close cs ≡ bit a)
    × (calls on_error cs ≡ bit b)
    × (calls on_read cs ≡ bit c)
    × (calls on_write cs ≡ bit d)

dispatch : (a b c d : Bool) → List Callback
dispatch a b c d =
    call_if a on_close ++ call_if b on_error ++ call_if c on_read ++ call_if d on_write

dispatch-Dispatched : (a b c d : Bool) → Dispatched a b c d (dispatch a b c d)
unfolding dispatch
dispatch-Dispatched a b c d = ground arith

-- An event of a channel whose owner lives makes each callback that is set, once if a bit calls for it
-- and else not at all: close for a hang-up with nothing to read, error for an error or a bad fd, read
-- for data, urgent data or the peer's end, write for room; in the order close, error, read, write.
pub handle_event_lem :
    (ch : Channel)
    → let cs = handle_event true ch in
      let r = ch.revents in
      InOrder cs
      × (calls on_close cs ≡ bit (r.pollhup && not r.pollin && ch.callbacks.close_callback))
      × (calls on_error cs ≡ bit ((r.pollerr || r.pollnval) && ch.callbacks.error_callback))
      × (calls on_read cs
          ≡ bit ((r.pollin || r.pollpri || r.pollrdhup) && ch.callbacks.read_callback))
      × (calls on_write cs ≡ bit (r.pollout && ch.callbacks.write_callback))
unfolding handle_event dispatch
handle_event_lem ch = elim (Bool-cases ch.tied) [
  | inl tied ↦ rw tied (dispatch-Dispatched _ _ _ _)
  | inr free ↦ rw free (dispatch-Dispatched _ _ _ _)
]
