-- ===== src/AsyncLogging/Rounds.antt =====
-- The writing thread: no assertion on its buffers fails, and what it takes is written.
use my_cisdi_code.Prelude.{refl}
use my_cisdi_code.LogStream.{new_buffer}
use my_cisdi_code.AsyncLogging.{AsyncLogging, large_buffer, new_logging}
use my_cisdi_code.AsyncLogging.Swapping.{IsReady}

pub new_logging-IsReady : IsReady new_logging
new_logging-IsReady = record {
  shared = record { current_large = refl; next_fits = (refl, refl); buffers_large = tt };
  first = (new_buffer large_buffer, refl, (refl, refl));
  second = (new_buffer large_buffer, refl, (refl, refl));
  idle = refl;
}
