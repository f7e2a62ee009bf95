-- ===== src/Exec.antt =====
-- Request handlers as actions on the database, backend/src/errors/AppError.js and the
-- transactions of backend/src/utils/serialize.js. What a handler wrote before it throws stays
-- written, unless it runs inside a transaction.
mod Defs
pub mod Laws
unfoldable pub use Defs.*
