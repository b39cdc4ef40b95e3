-- ===== src/PersistNode/Parse.antt =====
-- What reading a PersistNode from a stream does.
pub mod Totality
pub mod Tokens
pub mod Wellformed
pub mod Records
pub mod Rebuild
pub mod RoundTrip
