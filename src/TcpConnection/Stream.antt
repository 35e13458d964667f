-- ===== src/TcpConnection/Stream.antt =====
-- The bytes of a connection: none is lost, repeated or moved between `send` and the socket.
use mathlib.Core.List.{append-nil}
use mathlib.Core.Bool.{false≢true}
use my_cisdi_code.Prelude.{
  Bool, Bool-cases, Bytes, List, Result, [], ap, arith, dec_lt, drop, drop_all, false,
  if◌then◌else◌, inl, inr, leb, length, length-drop, le→leb, ltb, ltb-false, lt→ltb, max_size, ok,
  refl, subst, suc, sym, take, take-append-drop, true, zero, ℕ, ◌&&◌, ◌++◌, ◌+◌, ◌-◌, ◌==◌, ◌∙◌,
  ◌∷◌, ◌≡◌, ◌≢◌, ◌≤◌,
}
use my_cisdi_code.Buffer.{Buffer, readable_bytes, to_string_piece}
use my_cisdi_code.Buffer.Invariant.{IsValid as BufferIsValid}
use my_cisdi_code.Buffer.Append.{append_lem}
use my_cisdi_code.Channel.{Channel, disable_writing, enable_writing, is_writing}
use my_cisdi_code.TcpConnection.{
  Attempt, Done, Effect, State, TcpConnection, Written, after_write, attempt, buffer_rest,
  connecting, disconnected, disconnecting, effect_if, handle_write, high_water, is_fault, is_state,
  keep_rest, no_attempt, refused, remaining_of, send_in_loop, sent, shutdown_write, write_complete,
  writes_directly, written_some, wrote,
}
use my_cisdi_code.TcpConnection.Effects.{
  sent_bytes, sent_bytes-high_water, sent_bytes-write_complete,
}
use my_cisdi_code.Buffer.Retrieve.{retrieve_lem}

-- What waits to be written.
abbrev pub waiting : TcpConnection → Bytes
waiting c = to_string_piece c.output_buffer

-- The output buffer is valid, and while the connection lives nothing waits unless the channel waits
-- for room to write.
pub record IsValid (c : TcpConnection) : Type 0 where
  pub output : BufferIsValid c.output_buffer
  pub drained : c.state ≢ disconnected → is_writing c.channel ≡ false → waiting c ≡ []

-- The kernel takes at most what it is offered.
abbrev pub IsKernel : (ℕ → Written) → Type 0
IsKernel write = (offered taken : ℕ) → write offered ≡ wrote taken → taken ≤ offered

-- The write was not refused by a broken or reset connection.
abbrev pub NotBroken : Written → Type 0
NotBroken (wrote n) = Unit {0}
NotBroken (refused e) = is_fault e ≡ false

record Kept (c : TcpConnection) (message : Bytes) (r : Result Done) : Type 0 where
  after : Done
  returns : r ≡ ok after
  valid : IsValid after.conn
  same_state : after.conn.state ≡ c.state
  stream : sent_bytes after.effects ++ waiting after.conn ≡ waiting c ++ message

is_empty : (b : Buffer) → BufferIsValid b → readable_bytes b ≡ 0 → to_string_piece b ≡ []
is_empty b v e = ap (λ n. take n (drop b.reader_index b.buffer)) e

is_state-disconnected : (s : State) → s ≢ disconnected → is_state s disconnected ≡ false
is_state-disconnected disconnected h = absurd (h refl)
is_state-disconnected connecting h = refl
is_state-disconnected _ h = refl

abbrev waiting_channel : TcpConnection → Channel
waiting_channel c = if is_writing c.channel then c.channel else enable_writing c.channel

waits : (c : TcpConnection) → is_writing (waiting_channel c) ≡ false → ⊥
waits c h = ground arith

abbrev crosses : TcpConnection → ℕ → Bool
crosses c remaining =
    leb c.high_water_mark (readable_bytes c.output_buffer + remaining)
    && ltb (readable_bytes c.output_buffer) c.high_water_mark
    && c.high_water_mark_callback

keep_rest-Kept :
    (c : TcpConnection) (message : Bytes) (a : Attempt)
    → IsValid c
    → a.fault_error ≡ false
    → c.output_buffer.writer_index + length message ≤ max_size
    → a.nwrote ≤ length message
    → sent_bytes a.made ++ (waiting c ++ drop a.nwrote message) ≡ waiting c ++ message
    → Kept c message (keep_rest (length message - a.nwrote) c message a)
unfolding keep_rest
keep_rest-Kept c message a v fine room less split = elim (dec_lt 0 (length message - a.nwrote)) [
  | yes some_left ↦
      let n : length (drop a.nwrote message) ≡ length message - a.nwrote =
        length-drop a.nwrote message in
      let (output, e, w, content) =
        append_lem (drop a.nwrote message) c.output_buffer v.output (omega (arith, n)) in
      record {
        after = record {
          conn = record c { output_buffer = output; channel = waiting_channel c };
          effects =
              a.made
              ++ effect_if (crosses c (length message - a.nwrote))
                  (high_water (readable_bytes c.output_buffer + (length message - a.nwrote)));
        };
        returns = rw (fine, lt→ltb 0 (length message - a.nwrote) some_left, e) refl;
        valid = record { output = w; drained = λ s h. absurd (waits c h) };
        same_state = refl;
        stream =
            ap (λ xs. xs ++ to_string_piece output) (sent_bytes-high_water a.made _ _)
            ∙ ap (◌++◌ (sent_bytes a.made)) content
            ∙ split;
      }
  | no none_left ↦ record {
    after = record { conn = c; effects = a.made };
    returns = rw (fine, ltb-false 0 (length message - a.nwrote) (omega arith)) refl;
    valid = v;
    same_state = refl;
    stream =
        ap (◌++◌ (sent_bytes a.made)) (sym (append-nil (waiting c)))
        ∙ ap (λ xs. sent_bytes a.made ++ (waiting c ++ xs))
            (sym (drop_all a.nwrote message (omega arith)))
        ∙ split;
  }
]

-- The subtraction does not wrap where at most the message was written.
remaining_of_lem :
    (len nwrote : ℕ) → nwrote ≤ len → len ≤ max_size → remaining_of len nwrote ≡ len - nwrote
remaining_of_lem len nwrote less small = omega arith

buffer_rest-Kept :
    (c : TcpConnection) (message : Bytes) (a : Attempt)
    → IsValid c
    → a.fault_error ≡ false
    → c.output_buffer.writer_index + length message ≤ max_size
    → a.nwrote ≤ length message
    → sent_bytes a.made ++ (waiting c ++ drop a.nwrote message) ≡ waiting c ++ message
    → Kept c message (buffer_rest c message a)
unfolding buffer_rest
buffer_rest-Kept c message a v fine room less split =
    rw
      (
        remaining_of_lem (length message) a.nwrote less (omega arith),
        le→leb (length message - a.nwrote) (length message) (omega arith),
      )
      (keep_rest-Kept c message a v fine room less split)

sent_bytes_complete : (b : Bool) → sent_bytes (effect_if b write_complete) ≡ []
sent_bytes_complete true = refl
sent_bytes_complete false = refl

-- A write that was asked for wrote the first bytes, and nothing waited before.
attempt-Kept :
    (c : TcpConnection) (message : Bytes) (w : Written)
    → IsValid c
    → c.output_buffer.writer_index + length message ≤ max_size
    → NotBroken w
    → ((n : ℕ) → w ≡ wrote n → n ≤ length message)
    → waiting c ≡ []
    → Kept c message (buffer_rest c message (attempt c message w))
unfolding attempt
attempt-Kept c message (refused e) v room fine less nothing =
    buffer_rest-Kept c message (attempt c message (refused e)) v fine room (omega arith) refl
attempt-Kept c message (wrote n) v room fine less nothing =
    buffer_rest-Kept c message (attempt c message (wrote n)) v refl room (less n refl) (
      rw
        (
          nothing,
          sent_bytes_complete ((remaining_of (length message) n == 0) && c.write_complete_callback),
          append-nil (take n message),
        )
        (take-append-drop n message))

send_in_loop-Kept :
    (write : ℕ → Written) (message : Bytes) (c : TcpConnection)
    → IsKernel write
    → IsValid c
    → c.state ≢ disconnected
    → NotBroken (write (length message))
    → c.output_buffer.writer_index + length message ≤ max_size
    → Kept c message (send_in_loop write message c)
unfolding send_in_loop
send_in_loop-Kept write message c k v lives fine room = elim (Bool-cases (writes_directly c)) [
  | inl direct ↦
      rw (lives_false, direct)
        (attempt-Kept c message (write (length message)) v room fine (λ n e. k (length message) n e)
          (v.drained lives (ground arith)))
  | inr later ↦
      rw (lives_false, later) (buffer_rest-Kept c message no_attempt v refl room (omega arith) refl)
]
  where
    lives_false : is_state c.state disconnected ≡ false
    lives_false = is_state-disconnected c.state lives

-- `sendInLoop` on a connection that lives, whose socket is not broken: it returns, keeps the invariant
-- and the state, and the bytes handed to the socket followed by those that then wait are the bytes
-- that waited before followed by the message.
pub send_in_loop_lem :
    (write : ℕ → Written) (message : Bytes) (c : TcpConnection)
    → IsKernel write
    → IsValid c
    → c.state ≢ disconnected
    → NotBroken (write (length message))
    → c.output_buffer.writer_index + length message ≤ max_size
    → (d : Done) × (send_in_loop write message c ≡ ok d)
      × IsValid d.conn
      × (d.conn.state ≡ c.state)
      × (sent_bytes d.effects ++ waiting d.conn ≡ waiting c ++ message)
send_in_loop_lem write message c k v lives fine room =
    let kept = send_in_loop-Kept write message c k v lives fine room in
    (kept.after, kept.returns, kept.valid, kept.same_state, kept.stream)

abbrev WrittenKept : TcpConnection → Result Done → Type 0
WrittenKept c r =
    (d : Done) × (r ≡ ok d)
    × IsValid d.conn
    × (d.conn.state ≡ c.state)
    × (sent_bytes d.effects ++ waiting d.conn ≡ waiting c)

after_write-Kept :
    (c : TcpConnection) (n : ℕ) (output : Buffer)
    → IsValid c
    → is_writing c.channel ≡ true
    → BufferIsValid output
    → to_string_piece output ≡ drop n (waiting c)
    → WrittenKept c (after_write c n output)
unfolding after_write
after_write-Kept c n output v writing w content = elim (Bool-cases (readable_bytes output == 0)) [
  | inl all ↦
      let nothing = is_empty output w (ground arith) in
      let effects : List Effect =
        sent (take n (waiting c))
        ∷ (effect_if c.write_complete_callback write_complete
            ++ effect_if (is_state c.state disconnecting) shutdown_write) in
      let no_bytes =
        sent_bytes-write_complete c.write_complete_callback (is_state c.state disconnecting) in
      (
        record {
          conn = record c { output_buffer = output; channel = disable_writing c.channel };
          effects = effects;
        },
        rw all refl,
        record { output = w; drained = λ s h. nothing },
        refl,
        ap (λ xs. (take n (waiting c) ++ xs) ++ to_string_piece output) no_bytes
            ∙ ap (λ xs. xs ++ to_string_piece output) (append-nil (take n (waiting c)))
            ∙ ap (◌++◌ (take n (waiting c))) content
            ∙ take-append-drop n (waiting c),
      )
  | inr more ↦ (
    record { conn = record c { output_buffer = output }; effects = sent (take n (waiting c)) ∷ [] },
    rw more refl,
    record { output = w; drained = λ s h. absurd (false≢true (sym h ∙ writing)) },
    refl,
    ap (λ xs. xs ++ to_string_piece output) (append-nil (take n (waiting c)))
        ∙ ap (◌++◌ (take n (waiting c))) content
        ∙ take-append-drop n (waiting c),
  )
]

written_some-Kept :
    (c : TcpConnection) (w : Written)
    → IsValid c
    → is_writing c.channel ≡ true
    → ((n : ℕ) → w ≡ wrote n → n ≤ readable_bytes c.output_buffer)
    → WrittenKept c (written_some c w)
written_some-Kept c (wrote zero) v writing less =
    (record { conn = c; effects = [] }, refl, v, refl, refl)
written_some-Kept c (refused e) v writing less =
    (record { conn = c; effects = [] }, refl, v, refl, refl)
written_some-Kept c (wrote (suc n)) v writing less =
    let (output, e, w, content, _) =
      retrieve_lem (suc n) c.output_buffer v.output (less (suc n) refl) in
    rw e (after_write-Kept c (suc n) output v writing w content)

abbrev Asked : (ℕ → Written) → TcpConnection → Bool → Type 0
Asked write c b = WrittenKept c (
    if b
    then written_some c (write (readable_bytes c.output_buffer))
    else ok (record { conn = c; effects = [] }))

-- `handleWrite` returns and keeps the invariant and the state; the bytes handed to the socket followed
-- by those that still wait are those that waited before.
pub handle_write_lem :
    (write : ℕ → Written) (c : TcpConnection)
    → IsKernel write
    → IsValid c
    → (d : Done) × (handle_write write c ≡ ok d)
      × IsValid d.conn
      × (d.conn.state ≡ c.state)
      × (sent_bytes d.effects ++ waiting d.conn ≡ waiting c)
unfolding handle_write
handle_write_lem write c k v = elim (Bool-cases (is_writing c.channel)) [
  | inl writing ↦ subst (Asked write c) (sym writing) (
      written_some-Kept c (write (readable_bytes c.output_buffer)) v writing
        (λ n e. k (readable_bytes c.output_buffer) n e))
  | inr idle ↦
      subst (Asked write c) (sym idle) (record { conn = c; effects = [] }, refl, v, refl, refl)
]
