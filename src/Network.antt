-- ===== src/Network.antt =====
-- The reading loop of src/bee_network.c over PHP's streams, which are a parameter.
pub mod Whole
use bee_php.Prelude.{
  ℤ, pos, to_int, ℕ, zero, suc, ◌-◌, [], ◌++◌, ltb, ◌==◌, if◌then◌else◌, length, Bytes,
}
use bee_php.Engine.PhpStream.{PhpStream}
use bee_php.Engine.Outcome.{Outcome, ok, fault, out_of_fuel, ◌>>=◌}

module _ {Stream : Type 0} (php_stream : PhpStream Stream) where
  -- The loop with `left` bytes still to read: the bytes that it writes to the buffer.
  unfoldable pub read_loop : (fuel left : ℕ) → Stream → Outcome (Bytes × Stream)
  read_loop fuel zero s = ok ([], s)
  read_loop zero (suc n) s = out_of_fuel
  read_loop (suc fuel) (suc n) s =
      let chunk = (php_stream.read (suc n) s).0 in
      let s' = (php_stream.read (suc n) s).1 in
      let rest = read_loop fuel (suc n - length chunk) s' in
      if ltb (suc n) (length chunk)
      then fault
      else if length chunk == 0
      then ok ([], s')
      else (do (more, s'') ← rest; ok (chunk ++ more, s''))

  -- A round reads a byte at least, so that `size` rounds are enough. The number of bytes read is a
  -- size_t that is returned as an int.
  unfoldable pub beexll_stream_read2 : Stream → (size : ℕ) → Outcome (ℤ × Bytes × Stream)
  beexll_stream_read2 s size = do
    (buf, s') ← read_loop size size s
    ok (to_int (pos (length buf)), buf, s')
