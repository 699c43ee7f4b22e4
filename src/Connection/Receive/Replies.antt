-- ===== src/Connection/Receive/Replies.antt =====
-- What bee_step_recv makes of a reply of the server.
use bee_php.Prelude.{
  ℕ, ◌+◌, ◌-◌, ◌≤◌, ◌<◌, ◌^◌, ◌≡◌, refl, ap, ◌∙◌, true, some, [], ◌∷◌, ◌++◌, append_assoc, arith,
  ==_refl, length, take, drop, take-append_exact, take-append_more, drop-append_exact,
  length-append, length-drop, Bytes, be32, u32,
}
use bee_php.Engine.Zval.{Zval, array, Buckets, IsZval}
use bee_php.Engine.SmartString.{SmartString, IsBuffer, Allocator, IsAllocator}
use bee_php.Engine.MsgPuck.{MsgPuck, DecodesBack}
use bee_php.Engine.Php.{Php}
use bee_php.Engine.PhpStream.{IsPhpStream}
use bee_php.Engine.Streams.{Streams}
use bee_php.Msgpack.Buffer.{smart_string_ensure}
use bee_php.Msgpack.Buffer.Writes.{smart_string_ensure-Ensured}
use bee_php.Msgpack.Pack.Wire.{wire}
use bee_php.Msgpack.Unpack.{php_mp_check, php_mp_unpack_package_size}
use bee_php.Msgpack.Unpack.Image.{image}
use bee_php.Msgpack.Unpack.RoundTrip.{php_mp_unpack-wire}
use bee_php.Proto.Encode.Packet.{packet}
use bee_php.Connection.State.{Types, Session, Run, done, ◌>>=◌}
use bee_php.Connection.Stream.{read_into}
use bee_php.Connection.Stream.Keeps.{
  IsEmpty, read_count, read_count_small, reads_front, bee_stream_read-ReadsFront, read_into-written,
}
use bee_php.Connection.Receive.{
  judge, package_size, recv_size, recv_values, recv_message, bee_step_recv,
}

abbrev pub payload : ⦃mp : MsgPuck⦄ → Zval → Zval → Bytes
payload header body = wire header ++ wire body

module _ {Stream : Type 0} ⦃mp : MsgPuck⦄ (content : Stream → Bytes) where
  -- A reply of two values, shorter than 2 ^ 31 bytes, is on its way, and then `later`. mp_check accepts the size, and each of
  -- the values whatever follows it.
  pub record IsReply (stream : Stream) (header body : Zval) (later : Bytes) : Type 0 where
    pub incoming : content stream ≡ packet (payload header body) ++ later
    pub size_fits : length (payload header body) < 2 ^ 31
    pub header-IsZval : IsZval header
    pub body-IsZval : IsZval body
    pub size_checked : mp.check (0xce ∷ be32 (length (payload header body))) ≡ true
    pub header_checked : (rest : Bytes) → mp.check (wire header ++ rest) ≡ true
    pub body_checked : (rest : Bytes) → mp.check (wire body ++ rest) ≡ true

module _ {T : Types} ⦃net : Streams T.World T.Stream⦄ ⦃mp : MsgPuck⦄ ⦃php : Php⦄ ⦃al : Allocator⦄
    (content : T.Stream → Bytes) where
  module _ (stream_laws : IsPhpStream net.reads content) (decodes : DecodesBack mp) where
    package_size-reply :
        (s : Session T) (n : ℕ)
        → n < 2 ^ 32
        → mp.check (0xce ∷ be32 n) ≡ true
        → package_size (5, 0xce ∷ be32 n) s ≡ done n s
    unfolding package_size php_mp_check php_mp_unpack_package_size
    package_size-reply s n fits checked = rw (checked, decodes.decode-uint32 n [] fits)

    pub recv_size-reply :
        (s : Session T) (stream : T.Stream) (n : ℕ) (rest : Bytes)
        → s.stream ≡ some stream
        → content stream ≡ (0xce ∷ be32 n) ++ rest
        → n < 2 ^ 32
        → mp.check (0xce ∷ be32 n) ≡ true
        → (stream' : T.Stream) × (recv_size s ≡ done n (record s { stream = some stream' }))
          × (content stream' ≡ rest)
    unfolding recv_size
    recv_size-reply s stream n rest there incoming fits checked =
        elim (bee_stream_read-ReadsFront content stream_laws 5 s stream there) [
          | reads_front stream' got left ↦
              let front : take 5 (content stream) ≡ 0xce ∷ be32 n = ap (take 5) incoming in
              (
                stream',
                rw (got, ◌>>=◌, front, package_size-reply _ n fits checked),
                left ∙ ap (drop 5) incoming,
              )
        ]

    -- The two ends that php_mp_check is given lie behind the two values.
    recv_values-reply :
        (s : Session T) (header body : Zval) (stale : Bytes) (c m : ℕ) (bs : Buckets)
        → IsZval header
        → IsZval body
        → ((rest : Bytes) → mp.check (wire header ++ rest) ≡ true)
        → ((rest : Bytes) → mp.check (wire body ++ rest) ≡ true)
        → image header ≡ array c m bs
        → recv_values (length (payload header body)) (payload header body ++ stale) s
          ≡ done (image header, image body) s
    unfolding recv_values php_mp_check
    recv_values-reply s header body stale c m bs hh hb ch cb table =
        let n = length (payload header body) in
        let split : payload header body ++ stale ≡ wire header ++ (wire body ++ stale) =
          append_assoc (wire header) (wire body) stale in
        let front : take n (payload header body ++ stale) ≡ payload header body =
          take-append_exact (payload header body) stale n refl in
        let short : take n (wire body ++ stale) ≡ wire body ++ take (n - length (wire body)) stale =
          take-append_more n (wire body) stale
            (omega (arith, length-append (wire header) (wire body))) in
        let (k, first) = php_mp_unpack-wire decodes header (wire body ++ stale) hh in
        let (l, second) = php_mp_unpack-wire decodes body stale hb in
        rw (
          front,
          ch (wire body),
          split,
          first,
          ◌>>=◌,
          table,
          short,
          cb (take (n - length (wire body)) stale),
          second,
          table,
        )

    -- What was read lies at the start of the block, and off the stream.
    data IsRead (s : Session T) (p later : Bytes) {A : Type 0} (a : A) (len : ℕ) (r : Run T A)
        : Type 0 where
      is_read :
          (stream' : T.Stream) (v : SmartString) (stale : Bytes)
          → r
            ≡ done a
                (record s { stream = some stream'; value = record v { c = p ++ stale; len = len } })
          → IsBuffer (record v { c = p ++ stale; len = len })
          → content stream' ≡ later
          → IsRead s p later a len r

    read_into-IsRead :
        (s : Session T) (stream : T.Stream) (p later : Bytes)
        → s.stream ≡ some stream
        → content stream ≡ p ++ later
        → IsBuffer s.value
        → s.value.len ≡ 0
        → length p ≤ s.value.a
        → length p < 2 ^ 31
        → IsRead s p later (length p) 0 (read_into (λ v. v.len) (length p) s)
    read_into-IsRead s stream p later there incoming b at_start room small = go (
        read_into-written content stream_laws (λ v. v.len) (length p) s stream there b
          (omega (arith, at_start, room)))
      where
        n : ℕ
        n = length p

        v : SmartString
        v = s.value

        front : take n (content stream) ≡ p
        front = ap (take n) incoming ∙ take-append_exact p later n refl

        plain : 0 + n ≡ n
        plain = omega arith

        go :
            (stream' : T.Stream) × (read_into (λ w. w.len) n s
                ≡ done (read_count (length (take n (content stream)))) (record s {
                  stream = some stream';
                  value = record v {
                    c =
                        take v.len v.c
                        ++ (take n (content stream)
                            ++ drop (v.len + length (take n (content stream))) v.c);
                  };
                }))
              × (content stream' ≡ drop n (content stream))
            → IsRead s p later n 0 (read_into (λ w. w.len) n s)
        go (stream', got, left) =
            is_read stream' v (drop n v.c)
              (got ∙ rw (front, read_count_small n small, at_start, plain))
              (record {
                block = omega (arith, length-append p (drop n v.c), length-drop n v.c, b.block);
                within = omega arith;
              })
              (left ∙ ap (drop n) incoming ∙ drop-append_exact p later)

    recv_message-IsRead :
        (laws : IsAllocator al) (s : Session T) (stream : T.Stream) (p later : Bytes)
        → s.stream ≡ some stream
        → content stream ≡ p ++ later
        → IsEmpty s.value
        → length p < 2 ^ 31
        → IsRead s p later tt (length p) (recv_message (length p) s)
    unfolding recv_message
    recv_message-IsRead laws s stream p later there incoming empty small =
        let v = smart_string_ensure (length p) s.value in
        let e = smart_string_ensure-Ensured laws (length p) s.value empty.is_buffer in
        elim (read_into-IsRead (record s { value = v }) stream p later there incoming e.is_buffer
          (e.same_len ∙ empty.no_len) (omega (arith, e.room)) small) [
            | is_read stream' w stale got b left ↦
                let plain : 0 + length p ≡ length p = omega arith in
                is_read stream' w stale (rw (got, ◌>>=◌, ==_refl (length p), ◌>>=◌, plain))
                  (record {
                    block = b.block;
                    within = omega (arith, b.block, length-append p stale);
                  })
                  left
          ]

    -- Up to the verdict.
    pub bee_step_recv-IsRead :
        (laws : IsAllocator al) (sync : ℕ) (s : Session T) (stream : T.Stream) (header body : Zval)
        (later : Bytes) (c m : ℕ) (bs : Buckets)
        → s.stream ≡ some stream
        → IsEmpty s.value
        → IsReply content stream header body later
        → image header ≡ array c m bs
        → (stream' : T.Stream) × (v : SmartString) × (bee_step_recv sync s
            ≡ judge sync (image header, image body) (record s { stream = some stream'; value = v }))
          × (content stream' ≡ later)
          × IsBuffer v
    unfolding bee_step_recv
    bee_step_recv-IsRead laws sync s stream header body later c m bs there empty r table =
        let p = payload header body in
        let n = length p in
        let wrapped : u32 n ≡ n = omega (arith, r.size_fits) in
        let (stream₁, sized, left₁) =
          recv_size-reply s stream n (p ++ later) there
            (r.incoming ∙ rw (wrapped, append_assoc (0xce ∷ be32 n) p later))
            (omega (arith, r.size_fits)) r.size_checked in
        elim (recv_message-IsRead laws (record s { stream = some stream₁ }) stream₁ p later refl
          left₁ empty r.size_fits) [
            | is_read stream₂ v stale got b left ↦
                let both =
                  recv_values-reply
                    (record s {
                      stream = some stream₂;
                      value = record v { c = p ++ stale; len = n };
                    })
                    header body stale c m bs r.header-IsZval r.body-IsZval r.header_checked
                    r.body_checked table in
                (
                  stream₂,
                  record v { c = p ++ stale; len = n },
                  rw (sized, ◌>>=◌, got, ◌>>=◌, both),
                  left,
                  b,
                )
          ]
