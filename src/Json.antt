-- ===== src/Json.antt =====
-- libbb/bb_json.c: the writer that builds an object in a buffer, and the reader that looks keys up.
pub mod Writer
pub mod Reader
pub mod Decimal
pub mod Exact
pub mod Object
pub mod Lookup
pub mod Grammar
mod Tests
