-- ===== src/Msgpack.antt =====
-- src/bee_msgpack.c and src/bee_msgpack.h: PHP values to MessagePack and back.
pub mod Buffer
pub mod Pack
pub mod Sizeof
pub mod Unpack
pub mod Names
