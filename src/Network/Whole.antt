-- ===== src/Network/Whole.antt =====
-- However a stream cuts its bytes, the loop reads as many as were asked for, or all that come.
use bee_php.Prelude.{
  ℤ, pos, to_int, ◌^◌, length-take, ℕ, zero, suc, ◌-◌, ◌≤◌, ◌<◌, ◌≡◌, refl, sym, ap, ◌∙◌, false,
  Bool-cases, inl, inr, [], ◌∷◌, ◌++◌, arith, ltb, le→ltb_false, ◌==◌, ==_iff, length, take, drop,
  length-append, take-append_more, drop-append_more, Bytes,
}
use bee_php.Engine.PhpStream.{PhpStream, IsPhpStream}
use bee_php.Engine.Outcome.{Outcome, ok, ◌>>=◌}
use bee_php.Network.{read_loop, beexll_stream_read2}

to_int_small : (n : ℕ) → n < 2 ^ 31 → to_int (pos n) ≡ pos n
to_int_small n h = ground arith

length_zero : (xs : Bytes) → length xs ≡ 0 → xs ≡ []
length_zero [] h = refl
length_zero (x ∷ xs) h = absurd (omega arith)

nothing_left : (a b : ℕ) → (0 < a → 0 < b) → b ≡ 0 → a ≡ 0
nothing_left zero b f e = refl
nothing_left (suc a) b f e = absurd (omega (arith, f (omega arith), e))

module _ {Stream : Type 0} (php_stream : PhpStream Stream) (content : Stream → Bytes)
    (laws : IsPhpStream php_stream content) where
  -- The front of what was to come was read, and the rest is still to come.
  pub data Reads (size : ℕ) (s : Stream) (o : Outcome (Bytes × Stream)) : Type 0 where
    reads :
        (s' : Stream)
        → o ≡ ok (take size (content s), s')
        → content s' ≡ drop size (content s)
        → Reads size s o

  read_loop-Reads :
      (fuel size : ℕ) (s : Stream) → size ≤ fuel → Reads size s (read_loop php_stream fuel size s)
  unfolding read_loop
  read_loop-Reads fuel zero s h = reads s refl refl
  read_loop-Reads zero (suc n) s h = absurd (omega arith)
  read_loop-Reads (suc fuel) (suc n) s h =
      let chunk : Bytes = (php_stream.read (suc n) s).0 in
      let s' : Stream = (php_stream.read (suc n) s).1 in
      let front : content s ≡ chunk ++ content s' = laws.read-front (suc n) s in
      let few : length chunk ≤ suc n = laws.read_bound (suc n) s in
      let within : ltb (suc n) (length chunk) ≡ false = le→ltb_false (suc n) (length chunk) few in
      elim (Bool-cases (length chunk == 0)) [
        | inl e ↦
            let nothing : length chunk ≡ 0 = (==_iff (length chunk) 0).0 e in
            let at_end : length (content s) ≡ 0 =
              nothing_left (length (content s)) (length chunk)
                (laws.read_some (suc n) s (omega arith)) nothing in
            let empty : content s ≡ [] = length_zero (content s) at_end in
            let after : content s' ≡ [] =
              length_zero (content s')
                (omega (arith, at_end, ap length front, length-append chunk (content s'))) in
            reads s' (rw (within, e, empty) refl) (rw (empty, after) refl)
        | inr e ↦
            let less : suc n - length chunk ≤ fuel = ground arith in
            elim (read_loop-Reads fuel (suc n - length chunk) s' less) [
              | reads s'' rest left ↦
                  reads s''
                    (rw (within, e, rest)
                      (ap (λ b. ok (b, s''))
                        (sym (
                          ap (take (suc n)) front
                          ∙ take-append_more (suc n) chunk (content s') few))))
                    (left
                      ∙ sym (
                          ap (drop (suc n)) front
                          ∙ drop-append_more (suc n) chunk (content s') few))
            ]
      ]

  -- The same with the number that beexll_stream_read2 returns.
  pub data Counts (size : ℕ) (s : Stream) (o : Outcome (ℤ × Bytes × Stream)) : Type 0 where
    counts :
        (s' : Stream)
        → o ≡ ok (to_int (pos (length (take size (content s)))), take size (content s), s')
        → content s' ≡ drop size (content s)
        → (size < 2 ^ 31
            → to_int (pos (length (take size (content s)))) ≡ pos (length (take size (content s))))
        → Counts size s o

  -- beexll_stream_read2 ends without a failed assertion. It gives the first `size` bytes that were
  -- to come, all of them if they are fewer, and exactly what is behind them is still to come. It
  -- returns their number as an int, which for a size below 2 ^ 31 is their number.
  -- The stream is one of IsPhpStream.
  pub read2-Counts : (s : Stream) (size : ℕ) → Counts size s (beexll_stream_read2 php_stream s size)
  unfolding beexll_stream_read2
  read2-Counts s size = elim (read_loop-Reads size size s (omega arith)) [
    | reads s' got left ↦
        counts s' (rw (got, ◌>>=◌)) left
          (λ small. to_int_small _ (omega (arith, length-take size (content s), small)))
  ]
