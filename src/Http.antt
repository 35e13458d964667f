-- ===== src/Http.antt =====
-- muduo/net/http: requests, the parser of requests, responses and the server's message callback.
pub mod Request
pub mod Context
pub mod Server
