-- ===== src/Http.antt =====
-- httpService/http_service.c: the static file server, a part to each child.
pub mod Codec
pub mod Mime
pub mod Header
pub mod Reader
pub mod Request
pub mod Service
pub mod Main
