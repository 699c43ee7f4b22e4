-- ===== src/Engine/Streams.antt =====
-- The calls of PHP's streams that the extension makes. `World` is what lies outside the process.
use bee_php.Prelude.{ℕ, Bool, Option, Bytes}
use bee_php.Engine.PhpStream.{PhpStream}

pub data PersistentStatus : Type 0 where
  success failure not_exist : PersistentStatus

pub record Streams (World Stream : Type 0) : Type 0 where
  pub reads : PhpStream Stream
  -- php_stream_write: the number of bytes written. php_stream_flush: not 0 on an error.
  pub write : Bytes → Stream → ℕ × Stream
  pub flush : Stream → ℕ × Stream
  pub eof : Stream → Bool
  -- stream->mode is set.
  pub has_mode : Stream → Bool
  -- php_stream_xport_create for a host, a port and a persistent id: the error code and the stream.
  pub xport_create :
      (host : Bytes) (port : ℕ) (pid : Option Bytes) → World → ℕ × Option Stream × World
  -- setsockopt of TCP_NODELAY: not 0 on an error.
  pub setsockopt : Stream → ℕ
  pub from_persistent_id : (pid : Option Bytes) → World → PersistentStatus × Option Stream
  -- php_stream_free, with PHP_STREAM_FREE_CLOSE_PERSISTENT or without.
  pub free : (persistent : Bool) → Stream → World → World
