-- ===== src/AsyncLogging/Tests.antt =====
-- Asynchronous logging at concrete inputs.
use my_cisdi_code.AsyncLogging.{AsyncLogging}
