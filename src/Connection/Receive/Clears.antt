-- ===== src/Connection/Receive/Clears.antt =====
-- What the parts of bee_step_recv leave in the buffer.
use bee_php.Prelude.{
  ℤ, ℕ, ◌+◌, ◌≤◌, ◌≡◌, refl, ◌∙◌, Bool, true, false, Option, none, some, ◌++◌, arith, Option-cases,
  inl, inr, ◌==◌, length, take, drop, Bytes, to_u64,
}
use bee_php.Engine.Zval.{Zval, long, bool, array, string}
use bee_php.Engine.HashTable.{index_find}
use bee_php.Engine.SmartString.{SmartString, IsBuffer}
use bee_php.Engine.MsgPuck.{MsgPuck}
use bee_php.Engine.Streams.{Streams}
use bee_php.Engine.Outcome.{Exception, sync_not_equal, Outcome, ok, failure, fault, out_of_fuel}
use bee_php.Msgpack.Buffer.Writes.{length-write}
use bee_php.Msgpack.Unpack.{Unpacked, php_mp_unpack_package_size}
use bee_php.Proto.Keys.{beex_code, beex_sync, beex_error, beex_ok}
use bee_php.Msgpack.Unpack.Total.{Ends as UnpackEnds}
use bee_php.Connection.State.{Types, Session, Call, ◌>>=◌, run, attempt}
use bee_php.Connection.Runs.{Ends, >>=-Ends, IsPlain, run_keeps}
use bee_php.Connection.Stream.{bee_stream_close}
use bee_php.Connection.Stream.Keeps.{IsEmpty, reset_value-IsEmpty}
use bee_php.Connection.Receive.{
  hash_of, lval, strval, or_error, or_error_con, unpacked, if_array, check_sync, query_fails,
  answer, check_code, judge,
}

hash_of-IsPlain : (v : Zval) → IsPlain (hash_of v)
hash_of-IsPlain (array c n bs) = tt
hash_of-IsPlain other = tt

lval-IsPlain : (v : Zval) → IsPlain (lval v)
lval-IsPlain (long n) = tt
lval-IsPlain (bool true) = tt
lval-IsPlain (bool false) = tt
lval-IsPlain other = tt

strval-IsPlain : (v : Option Zval) → IsPlain (strval v)
strval-IsPlain none = tt
strval-IsPlain (some (string s)) = tt
strval-IsPlain (some other) = tt

pub unpack_size-IsPlain : ⦃mp : MsgPuck⦄ (buf : Bytes) → IsPlain (php_mp_unpack_package_size buf)
unfolding php_mp_unpack_package_size
unpack_size-IsPlain ⦃mp⦄ buf = elim (Option-cases (mp.decode_uint buf)) [
  | inl e ↦ rw (e, IsPlain) tt
  | inr (r, e) ↦ rw (e, IsPlain) tt
]

pub has_fuel : (bound : ℕ) (o : Unpacked) → UnpackEnds bound o → o ≡ out_of_fuel → ⊥
has_fuel bound (ok r) h e = cc
has_fuel bound (failure x) h e = cc
has_fuel bound fault h e = cc
has_fuel bound out_of_fuel h e = elim h [ ]

-- The block after a read of `n` bytes at the length.
pub written-IsBuffer :
    (v : SmartString) (front : Bytes)
    → IsBuffer v
    → v.len + length front ≤ v.a
    → IsBuffer (record v { c = take v.len v.c ++ (front ++ drop (v.len + length front) v.c) })
written-IsBuffer v front b room = record {
  block = length-write v.len front v.c (omega (arith, b.block)) ∙ b.block;
  within = b.within;
}

module _ {T : Types} where
  -- A part that is run on a buffer leaves a buffer, and an empty one if it fails.
  pub record Keeps {A : Type 0} (m : Call T A) : Type 0 where
    pub ends :
        (s : Session T)
        → IsBuffer s.value
        → Ends (λ _ s'. IsBuffer s'.value) (λ s'. IsEmpty s'.value) (m s)

  pub >>=-Keeps :
      {A B : Type 0} (m : Call T A) (f : A → Call T B)
      → Keeps m
      → ((a : A) → Keeps (f a))
      → Keeps (m >>= f)
  >>=-Keeps m f k l = record {
    ends = λ s b.
        >>=-Ends (λ _ s'. IsBuffer s'.value) (λ _ s'. IsBuffer s'.value) (λ s'. IsEmpty s'.value) m
          f s (k.ends s b) (λ a s' b'. (l a).ends s' b');
  }

  pub run-Keeps : {A : Type 0} (o : Outcome A) → IsPlain o → Keeps (run o)
  run-Keeps o h = record {
    ends = λ s b. run_keeps (λ s'. IsBuffer s'.value) (λ s'. IsEmpty s'.value) o s h b;
  }

  pub attempt-Keeps : {A : Type 0} (o : Outcome A) → (o ≡ out_of_fuel → ⊥) → Keeps (attempt o)
  attempt-Keeps (ok a) h = record { ends = λ s b. b }
  attempt-Keeps (failure none) h = record { ends = λ s b. b }
  attempt-Keeps (failure (some e)) h = record { ends = λ s b. b }
  attempt-Keeps fault h = record { ends = λ s b. tt }
  attempt-Keeps out_of_fuel h = absurd (h refl)

  module _ ⦃net : Streams T.World T.Stream⦄ where
    pub unpacked-Keeps : {A : Type 0} (o : Option A) → Keeps (unpacked o)
    unpacked-Keeps none = record { ends = λ s b. reset_value-IsEmpty s.value b }
    unpacked-Keeps (some a) = record { ends = λ s b. b }

    pub or_error-Keeps : (t : Bool) (e : Exception) → Keeps (or_error t e)
    or_error-Keeps true e = record { ends = λ s b. b }
    or_error-Keeps false e = record { ends = λ s b. reset_value-IsEmpty s.value b }

    pub or_error_con-Keeps : (t : Bool) (e : Exception) → Keeps (or_error_con t e)
    unfolding bee_stream_close
    or_error_con-Keeps true e = record { ends = λ s b. b }
    or_error_con-Keeps false e = record { ends = λ s b. reset_value-IsEmpty s.value b }

    pub if_array-Keeps : (v : Zval) → Keeps (if_array v)
    if_array-Keeps (array c n bs) = record { ends = λ s b. b }
    if_array-Keeps other = record { ends = λ s b. reset_value-IsEmpty s.value b }

    check_sync-Keeps : (sync : ℕ) (v : Option Zval) → Keeps (check_sync sync v)
    unfolding check_sync
    check_sync-Keeps sync none = record { ends = λ s b. b }
    check_sync-Keeps sync (some val) =
        >>=-Keeps (run (lval val)) (λ n. or_error_con (to_u64 n == sync) sync_not_equal)
          (run-Keeps (lval val) (lval-IsPlain val))
          (λ n. or_error_con-Keeps (to_u64 n == sync) sync_not_equal)

    -- What follows a part that keeps the buffer.
    pub then-Clears :
        {A B : Type 0} (m : Call T A) (f : A → Call T B) (s : Session T)
        → Keeps m
        → IsBuffer s.value
        → ((a : A) (s' : Session T)
            → IsBuffer s'.value
            → Ends (λ _ s''. IsEmpty s''.value) (λ s''. IsEmpty s''.value) (f a s'))
        → Ends (λ _ s'. IsEmpty s'.value) (λ s'. IsEmpty s'.value) ((m >>= f) s)
    then-Clears m f s k b l =
        >>=-Ends (λ _ s'. IsBuffer s'.value) (λ _ s'. IsEmpty s'.value) (λ s'. IsEmpty s'.value) m f
          s (k.ends s b) l

    query_fails-Clears :
        (n : ℤ) (body : Zval) (s : Session T)
        → IsBuffer s.value
        → Ends (λ _ s'. IsEmpty s'.value) (λ s'. IsEmpty s'.value) (query_fails n body s)
    unfolding query_fails
    query_fails-Clears n body s b =
        then-Clears (run (hash_of body)) _ s (run-Keeps (hash_of body) (hash_of-IsPlain body)) b
          λ hash s' b'.
            then-Clears (run (strval (index_find beex_error hash))) _ s'
              (run-Keeps (strval (index_find beex_error hash))
                (strval-IsPlain (index_find beex_error hash)))
              b' λ errstr s'' b''. reset_value-IsEmpty s''.value b''

    answer-Clears :
        (t : Bool) (n : ℤ) (body : Zval) (s : Session T)
        → IsBuffer s.value
        → Ends (λ _ s'. IsEmpty s'.value) (λ s'. IsEmpty s'.value) (answer t n body s)
    unfolding answer
    answer-Clears true n body s b = reset_value-IsEmpty s.value b
    answer-Clears false n body s b = query_fails-Clears n body s b

    -- The verdict on a code leaves an empty buffer whether it fails or not.
    check_code-Clears :
        (code : Option Zval) (body : Zval) (s : Session T)
        → IsBuffer s.value
        → Ends (λ _ s'. IsEmpty s'.value) (λ s'. IsEmpty s'.value) (check_code code body s)
    unfolding check_code bee_stream_close
    check_code-Clears none body s b = reset_value-IsEmpty s.value b
    check_code-Clears (some val) body s b =
        then-Clears (run (lval val)) (λ n. answer (to_u64 n == beex_ok) n body) s
          (run-Keeps (lval val) (lval-IsPlain val)) b
          (λ n s' b'. answer-Clears (to_u64 n == beex_ok) n body s' b')

    pub judge-Clears :
        (sync : ℕ) (values : Zval × Zval) (s : Session T)
        → IsBuffer s.value
        → Ends (λ _ s'. IsEmpty s'.value) (λ s'. IsEmpty s'.value) (judge sync values s)
    unfolding judge
    judge-Clears sync (header, body) s b =
        then-Clears (run (hash_of header)) _ s (run-Keeps (hash_of header) (hash_of-IsPlain header))
          b
          λ hash s' b'.
            then-Clears (check_sync sync (index_find beex_sync hash)) _ s'
              (check_sync-Keeps sync (index_find beex_sync hash)) b'
              λ _ s'' b''.
                >>=-Ends (λ _ s'. IsEmpty s'.value) (λ _ s'. IsEmpty s'.value)
                  (λ s'. IsEmpty s'.value) (check_code (index_find beex_code hash) body) _ s''
                  (check_code-Clears (index_find beex_code hash) body s'' b'') (λ _ s' b'. b')
