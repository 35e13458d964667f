-- ===== src/Connector/Tests.antt =====
-- A connector at concrete inputs.
use my_cisdi_code.Prelude.{[], arith, false, ok, refl, some, true, ◌++◌, ◌∷◌, ◌≡◌}
use my_cisdi_code.Connector.{
  Connector, Done, closed, connecting, disconnected, handle_error, new_connector, queued_reset,
  remove_and_reset_channel, retry, retry_after,
}
use my_cisdi_code.Connector.Sockets.{
  InRange, Waits, Watches, call_handle_error, releases, step, step-Kept,
}

abbrev waiting : Connector
waiting = record new_connector {
  connect = true;
  state = connecting;
  channel = some 7;
  added_to_loop = true;
}

abbrev refused : Done
refused = record {
  conn = record waiting { state = disconnected; added_to_loop = false; retry_delay_ms = 1000 };
  effects = queued_reset ∷ closed 7 ∷ retry_after 500 ∷ [];
}

handle_error-waiting : handle_error waiting ≡ ok refused
unfolding handle_error remove_and_reset_channel retry
handle_error-waiting = refl

step-Kept_example :
    ((7 ∷ []) ++ [] ≡ [] ++ releases refused.effects)
    × Watches refused.conn.state refused.conn.channel refused.conn.added_to_loop
    × InRange refused.conn.retry_delay_ms
    × Waits refused.effects
unfolding step
step-Kept_example =
    step-Kept call_handle_error waiting refused (omega arith, omega arith) (refl, refl) tt
      handle_error-waiting
