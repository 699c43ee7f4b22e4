-- ===== src/Tests/Huge.antt =====
-- A reply of 2 ^ 31 bytes.
use bee_php.Prelude.{
  ℕ, ◌^◌, ◌≤◌, ◌≡◌, refl, some, [], ◌∷◌, ◌++◌, replicate, arith, length, drop, length-replicate,
  Bytes, be32,
}
use bee_php.Engine.SmartString.{SmartString}
use bee_php.Engine.Outcome.{message_unread}
use bee_php.Connection.State.{Session, failed}
use bee_php.Connection.Stream.Keeps.{IsEmpty}
use bee_php.Connection.Receive.{bee_step_recv}
use bee_php.Connection.Receive.Huge.{bee_step_recv_huge}
use bee_php.Tests.Codec.{codec}
use bee_php.Tests.Codec.Decodes.{codec-DecodesBack}
use bee_php.Tests.Memory.{allocator, allocator-IsAllocator, fresh-IsBuffer}
use bee_php.Tests.Values.{php}
use bee_php.Tests.Streams.{pairwise-IsPhpStream}
use bee_php.Tests.Connections.{types, server, session}

-- So many zeros, which nothing computes.
unfoldable zeros : ℕ → Bytes
zeros n = replicate n 0

zeros-length : (n : ℕ) → n ≤ length (zeros n)
unfolding zeros
zeros-length n = omega (arith, length-replicate {A = ℕ} n 0)

abbrev waiting : Session types
waiting = session ((0xce ∷ be32 (2 ^ 31)) ++ zeros (2 ^ 31))

bee_step_recv_huge_example :
    (stream' : Bytes) × (v : SmartString) × (bee_step_recv {T = types} ⦃net = server []⦄
        ⦃mp = codec⦄ ⦃php = php⦄ ⦃al = allocator⦄ 7 waiting
      ≡ failed (record waiting {
        stream = some stream';
        value = v;
        thrown = message_unread (2 ^ 31) ∷ [];
      }))
    × (stream' ≡ drop (2 ^ 31) (zeros (2 ^ 31)))
    × IsEmpty v
bee_step_recv_huge_example =
    bee_step_recv_huge {T = types} ⦃net = server []⦄ ⦃mp = codec⦄ ⦃php = php⦄ ⦃al = allocator⦄
      (λ s. s) pairwise-IsPhpStream codec-DecodesBack allocator-IsAllocator 7 (2 ^ 31) waiting
      ((0xce ∷ be32 (2 ^ 31)) ++ zeros (2 ^ 31)) (zeros (2 ^ 31)) refl refl (omega arith)
      (omega arith) (zeros-length (2 ^ 31)) refl fresh-IsBuffer
