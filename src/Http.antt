-- ===== src/Http.antt =====
-- The HTTP parsers of src/http.
pub mod Headers
pub mod Request
pub mod Chunks
pub mod Parsers
