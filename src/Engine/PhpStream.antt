-- ===== src/Engine/PhpStream.antt =====
-- The streams of PHP, as far as bytes are read from them.
use bee_php.Prelude.{ℕ, ◌≤◌, ◌<◌, ◌≡◌, ◌++◌, length, Bytes}

pub record PhpStream (Stream : Type 0) : Type 0 where
  -- php_stream_read: the bytes written to the buffer, and the stream afterwards.
  pub read : ℕ → Stream → Bytes × Stream

-- `content` is what is still to come. A read takes some of its front, no more than asked for, and
-- nothing only at the end.
pub record IsPhpStream {Stream : Type 0} (p : PhpStream Stream) (content : Stream → Bytes)
    : Type 0 where
  pub read-front : (n : ℕ) (s : Stream) → content s ≡ (p.read n s).0 ++ content (p.read n s).1
  pub read_bound : (n : ℕ) (s : Stream) → length (p.read n s).0 ≤ n
  pub read_some : (n : ℕ) (s : Stream) → 0 < n → 0 < length (content s) → 0 < length (p.read n s).0
