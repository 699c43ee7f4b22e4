-- ===== src/Tests/Streams.antt =====
-- A stream that gives two bytes at a time.
use Prim.Native.Nat.{min}
use bee_php.Prelude.{
  ℕ, zero, suc, ◌≡◌, refl, ap, [], ◌∷◌, ◌++◌, arith, take, drop, length-take, Bytes,
}
use bee_php.Engine.PhpStream.{PhpStream, IsPhpStream}
use bee_php.Network.{beexll_stream_read2}
use bee_php.Network.Whole.{Counts, read2-Counts}

abbrev pub pairwise : PhpStream Bytes
pairwise = record { read = λ n s. (take (min n 2) s, drop (min n 2) s) }

take-drop : (n : ℕ) (s : Bytes) → s ≡ take n s ++ drop n s
take-drop zero s = refl
take-drop (suc n) [] = refl
take-drop (suc n) (b ∷ s) = ap (λ r. b ∷ r) (take-drop n s)

pub pairwise-IsPhpStream : IsPhpStream pairwise (λ s. s)
pairwise-IsPhpStream = record {
  read-front = λ n s. take-drop (min n 2) s;
  read_bound = λ n s. omega (arith, length-take (min n 2) s);
  read_some = λ n s h k. omega (arith, length-take (min n 2) s);
}

abbrev five : Bytes
five = 1 ∷ 2 ∷ 3 ∷ 4 ∷ 5 ∷ []

read2-Counts_example :
    Counts pairwise (λ s. s) pairwise-IsPhpStream 3 five (beexll_stream_read2 pairwise five 3)
read2-Counts_example = read2-Counts pairwise (λ s. s) pairwise-IsPhpStream five 3
