-- ===== src/Connection.antt =====
-- A connection to the server: src/bee.c above the encoders and the parsers.
pub mod State
pub mod Runs
pub mod Stream
pub mod Receive
pub mod Names
pub mod Connect
pub mod Methods
pub mod Class
pub mod Exchange
pub mod Invariant
pub mod Refusals
pub mod Reserve
pub mod Wrapper
