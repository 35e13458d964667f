-- ===== src/TcpConnection/Tests.antt =====
-- A connection at concrete inputs.
use my_cisdi_code.Prelude.{
  Bytes, List, [], arith, length, ok, refl, suc, true, zero, ℕ, ◌++◌, ◌+◌, ◌∷◌, ◌≡◌, ◌≤◌,
}
use my_cisdi_code.Buffer.{Buffer}
use my_cisdi_code.Channel.{disable_all, enable_reading, enable_writing, new_channel}
use my_cisdi_code.TcpConnection.{
  Done, TcpConnection, Written, close_called, connect_established, connected, connecting,
  connection_called, disconnected, force_close, handle_close, handle_write, send_in_loop, wrote,
}
use my_cisdi_code.TcpConnection.Effects.{sent_bytes}
use my_cisdi_code.TcpConnection.Stream.{
  IsKernel, IsValid, handle_write_lem, send_in_loop_lem, waiting,
}
use my_cisdi_code.TcpConnection.States.{
  Call, Moves, call_connect_established, call_force_close, call_handle_close, run, run_callbacks,
  step, step-Moves,
}

abbrev zeros : Bytes
zeros = 0 ∷ 0 ∷ 0 ∷ 0 ∷ 0 ∷ 0 ∷ 0 ∷ 0 ∷ []

abbrev holding : Bytes → Buffer
holding xs = record { buffer = zeros ++ xs; reader_index = 8; writer_index = 8 + length xs }

abbrev fresh : TcpConnection
fresh = record {
  state = connecting;
  reading = true;
  channel = new_channel 5;
  write_complete_callback = true;
  high_water_mark_callback = true;
  high_water_mark = 4;
  input_buffer = holding [];
  output_buffer = holding [];
}

abbrev up : TcpConnection
up = record fresh { state = connected; channel = enable_reading (new_channel 5) }

abbrev busy : TcpConnection
busy = record up { channel = enable_writing up.channel; output_buffer = holding (1 ∷ 2 ∷ 3 ∷ []) }

-- The kernel takes one byte of whatever it is offered.
abbrev one_byte : ℕ → Written
one_byte zero = wrote 0
one_byte (suc n) = wrote 1

one_byte-IsKernel : IsKernel one_byte
one_byte-IsKernel zero taken e = ground arith
one_byte-IsKernel (suc n) taken e = ground arith

up-IsValid : IsValid up
up-IsValid = record { output = omega arith; drained = λ s h. refl }

busy-IsValid : IsValid busy
busy-IsValid = record { output = omega arith; drained = λ s h. cc }

send_in_loop_lem_example :
    (d : Done) × (send_in_loop one_byte (7 ∷ 8 ∷ 9 ∷ []) up ≡ ok d)
    × IsValid d.conn
    × (d.conn.state ≡ connected)
    × (sent_bytes d.effects ++ waiting d.conn ≡ 7 ∷ 8 ∷ 9 ∷ [])
send_in_loop_lem_example =
    send_in_loop_lem one_byte (7 ∷ 8 ∷ 9 ∷ []) up one_byte-IsKernel up-IsValid (λ e. cc) tt
      (omega arith)

handle_write_lem_example :
    (d : Done) × (handle_write one_byte busy ≡ ok d)
    × IsValid d.conn
    × (d.conn.state ≡ connected)
    × (sent_bytes d.effects ++ waiting d.conn ≡ 1 ∷ 2 ∷ 3 ∷ [])
handle_write_lem_example = handle_write_lem one_byte busy one_byte-IsKernel busy-IsValid

abbrev closed : TcpConnection
closed = record up { state = disconnected; channel = disable_all up.channel }

step-Moves_example : Moves connected disconnected × ◌≡◌ {A = ℕ} 2 (1 + 1)
unfolding step handle_close
step-Moves_example =
    step-Moves call_handle_close up
      (record { conn = closed; effects = connection_called ∷ close_called ∷ [] }) refl

abbrev history : List Call
history = call_connect_established ∷ call_handle_close ∷ call_force_close ∷ []

run_callbacks_example : ◌≡◌ {A = ℕ} 2 2 × (2 ≤ 2)
unfolding run step handle_close connect_established force_close
run_callbacks_example =
    run_callbacks history fresh
      (record {
        conn = record fresh {
          state = disconnected;
          channel = disable_all (record (enable_reading fresh.channel) { tied = true });
        };
        effects = connection_called ∷ connection_called ∷ close_called ∷ [];
      })
      refl refl
