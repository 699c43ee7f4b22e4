-- ===== src/Proto.antt =====
-- src/bee_proto.c and src/bee_proto.h: requests to the server and its responses.
pub mod Keys
pub mod Sizes
pub mod Encode
pub mod Response
