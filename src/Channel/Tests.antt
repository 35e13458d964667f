-- ===== src/Channel/Tests.antt =====
-- A channel at concrete inputs.
use my_cisdi_code.Prelude.{false, true, ◌≡◌}
use my_cisdi_code.Channel.{
  Channel, handle_event, new_channel, on_close, on_error, on_read, on_write,
}
use my_cisdi_code.Channel.Dispatch.{InOrder, calls, handle_event_lem}

abbrev hung_up : Channel
hung_up = record (new_channel 5) {
  revents = record {
    pollin = false;
    pollpri = false;
    pollout = true;
    pollerr = true;
    pollhup = true;
    pollnval = false;
    pollrdhup = false;
  };
  callbacks = record {
    read_callback = true;
    write_callback = true;
    close_callback = true;
    error_callback = true;
  };
}

handle_event_lem_example :
    InOrder (handle_event true hung_up)
    × (calls on_close (handle_event true hung_up) ≡ 1)
    × (calls on_error (handle_event true hung_up) ≡ 1)
    × (calls on_read (handle_event true hung_up) ≡ 0)
    × (calls on_write (handle_event true hung_up) ≡ 1)
handle_event_lem_example = handle_event_lem hung_up
