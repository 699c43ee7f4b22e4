-- ===== src/Client.antt =====
-- The helpers of src/bee.c that turn the arguments of a method into the parts of a request.
pub mod Key
pub mod Iterator
pub mod Update
