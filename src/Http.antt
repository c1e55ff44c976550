-- ===== src/Http.antt =====
-- src/infra/http_client.c: the client over libcurl.
pub mod Defs
pub mod Client
pub mod Calls
