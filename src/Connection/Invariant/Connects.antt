-- ===== src/Connection/Invariant/Connects.antt =====
-- Connecting and authenticating keep the connection well.
use bee_php.Prelude.{
  ℕ, zero, suc, ◌⊎◌, arith, Bool, true, false, Option, none, some, ℤ, pos, negsuc, length, drop,
  take, length-append, length-drop, length-take, Bytes, Bool-cases, Option-cases, inl, inr,
}
use bee_php.Engine.SmartString.{Allocator}
use bee_php.Engine.MHash.{MHash, IsMHash}
use bee_php.Engine.MsgPuck.{MsgPuck}
use bee_php.Engine.PhpStream.{IsPhpStream}
use bee_php.Engine.Streams.{Streams, PersistentStatus, success}
use bee_php.Engine.Tp.{Tp}
use bee_php.Engine.Outcome.{Exception}
use bee_php.Proto.Keys.{greeting_size}
use bee_php.Proto.Response.{BeexResponse}
use bee_php.Schema.{SchemaSpaceValue, SchemaIndexValue, bee_schema_flush}
use bee_php.Schema.Free.{bee_schema_flush-IsKeyed}
use bee_php.Connection.State.{Types, Call, modify}
use bee_php.Connection.Stream.{beexll_stream_open}
use bee_php.Connection.Stream.Keeps.{reads_front, bee_stream_read_null, bee_stream_read-ReadsFront}
use bee_php.Connection.Connect.{
  noted, noted_error, take_reply, judge_reply, take_replies, bee_authenticate, name_stream, opened,
  open_stream, read_greeting, after_attempt, attempts, log_in, if_connected, open_new, take_found,
  find_persistent, bee_connect, bee_reconnect,
}
use bee_php.Connection.Invariant.{After, Preserves, preserving}
use bee_php.Connection.Invariant.Streams.{bee_stream_close-Preserves}
use bee_php.Connection.Invariant.Lookups.{
  send_tp-Preserves, read_block-Preserves, cache_spaces, cache_indexes,
}

module _ {T : Types} ⦃net : Streams T.World T.Stream⦄ ⦃mp : MsgPuck⦄ ⦃al : Allocator⦄ ⦃tp : Tp⦄
    ⦃space_hash : MHash T.Spaces SchemaSpaceValue⦄ ⦃index_hash : MHash T.Indexes SchemaIndexValue⦄
    (tables : IsMHash space_hash) (content : T.Stream → Bytes)
    (stream_laws : IsPhpStream net.reads content) where
  noted-Preserves :
      (bad : Bool) (e : Exception) (status : Bool) → Preserves (noted {T = T} bad e status)
  noted-Preserves true e status = search preserving
  noted-Preserves false e status = search preserving

  noted_error-Preserves :
      (resp : BeexResponse) (status : Bool) → Preserves (noted_error {T = T} resp status)
  noted_error-Preserves resp status = elim (Option-cases resp.error) [
    | inl e ↦ rw e (search preserving)
    | inr (error, e) ↦ rw e (search preserving)
  ]

  ruleset replying = (preserving, noted-Preserves, noted_error-Preserves)

  take_reply-Preserves :
      (auth_sync space_sync index_sync : ℕ) (resp : BeexResponse) (status : Bool)
      → Preserves (take_reply {T = T} auth_sync space_sync index_sync resp status)
  unfolding take_reply
  take_reply-Preserves auth_sync space_sync index_sync resp status =
      search (replying, cache_spaces tables, cache_indexes tables) depth 12

  judge_reply-Preserves :
      (auth_sync space_sync index_sync : ℕ)
      → Preserves (judge_reply {T = T} auth_sync space_sync index_sync)
  unfolding judge_reply
  judge_reply-Preserves auth_sync space_sync index_sync =
      search (replying, take_reply-Preserves) depth 12

  take_replies-Preserves :
      (auth_sync space_sync index_sync n : ℕ) (status : Bool)
      → Preserves (take_replies {T = T} auth_sync space_sync index_sync n status)
  unfolding take_replies
  take_replies-Preserves a b c zero status = search preserving
  take_replies-Preserves a b c (suc n) status =
      search
        (preserving, read_block-Preserves, judge_reply-Preserves, take_replies-Preserves a b c n)
        depth 12

  pub flush-Preserves :
      Preserves {T = T} (modify (λ s. record s { schema = bee_schema_flush s.schema }))
  flush-Preserves = record {
    after = λ s w. record {
      schema-IsKeyed = bee_schema_flush-IsKeyed tables s.schema w.schema-IsKeyed;
      greeting_long = w.greeting_long;
      counter_fits = w.counter_fits;
    };
  }

  pub bee_authenticate-Preserves : Preserves (bee_authenticate {T = T})
  unfolding bee_authenticate
  bee_authenticate-Preserves =
      search (flush-Preserves, preserving, send_tp-Preserves, take_replies-Preserves) depth 30

  opened-Preserves : (o : (Exception ⊎ T.Stream) × T.World) → Preserves (opened {T = T} o)
  opened-Preserves (inl e, w) = record { after = λ s h. h }
  opened-Preserves (inr stream, w) = record { after = λ s h. h }

  open_stream-Preserves : Preserves (open_stream {T = T})
  unfolding open_stream
  open_stream-Preserves = record {
    after = λ s w.
        (opened-Preserves (beexll_stream_open net s.host s.port s.persistent_id s.world)).after s w;
  }

  read_greeting-Preserves : Preserves (read_greeting {T = T})
  unfolding read_greeting
  read_greeting-Preserves = record {
    after = λ s w. elim (Option-cases s.stream) [
      | inl e ↦ rw (bee_stream_read_null content stream_laws greeting_size s e, After) tt
      | inr (stream, e) ↦
          elim (bee_stream_read-ReadsFront content stream_laws greeting_size s stream e) [
            | reads_front stream' got left ↦
                rw (got, After)
                  (record {
                    schema-IsKeyed = w.schema-IsKeyed;
                    greeting_long = omega (
                      arith,
                      w.greeting_long,
                      length-append (take greeting_size (content stream))
                          (drop (length (take greeting_size (content stream))) s.greeting),
                      length-drop (length (take greeting_size (content stream))) s.greeting,
                      length-take greeting_size (content stream),
                    );
                    counter_fits = w.counter_fits;
                  })
          ]
    ];
  }

  after_attempt-Preserves :
      (count : ℕ) (again : Option Exception → Call T (ℕ × Option Exception))
      (err' : Option Exception)
      → ((err : Option Exception) → Preserves (again err))
      → Preserves {T = T} (after_attempt count again err')
  after_attempt-Preserves count again none h = search (preserving, read_greeting-Preserves)
  after_attempt-Preserves count again (some e) h = h (some e)

  name_stream-Preserves : Preserves (name_stream {T = T})
  name_stream-Preserves = record {
    after = λ s w. elim (Bool-cases s.is_persistent) [ inl e ↦ rw e w | inr e ↦ rw e w ];
  }

  attempts-Preserves : (count : ℕ) (err : Option Exception) → Preserves (attempts {T = T} count err)
  unfolding attempts
  attempts-Preserves zero err = search preserving
  attempts-Preserves (suc count) err =
      search
        (
          preserving,
          name_stream-Preserves,
          open_stream-Preserves,
          after_attempt-Preserves,
          attempts-Preserves count,
        )
        depth 12

  log_in-Preserves : Preserves (log_in {T = T})
  log_in-Preserves = search (preserving, bee_authenticate-Preserves) depth 8

  if_connected-Preserves : (ended : ℕ × Option Exception) → Preserves (if_connected {T = T} ended)
  if_connected-Preserves (zero, err) = search preserving
  if_connected-Preserves (suc count, err) = log_in-Preserves

  open_new-Preserves : (count : ℤ) → Preserves (open_new {T = T} count)
  unfolding open_new
  open_new-Preserves (negsuc n) = log_in-Preserves
  open_new-Preserves (pos n) = search (preserving, attempts-Preserves, if_connected-Preserves)

  take_found-Preserves : (o : PersistentStatus × Option T.Stream) → Preserves (take_found {T = T} o)
  take_found-Preserves (success, found) = record { after = λ s w. w }
  take_found-Preserves (status, found) = record { after = λ s w. w }

  find_persistent-Preserves : Preserves (find_persistent {T = T})
  unfolding find_persistent
  find_persistent-Preserves = search (preserving, take_found-Preserves) depth 8

  pub bee_connect-Preserves : Preserves (bee_connect {T = T})
  unfolding bee_connect
  bee_connect-Preserves =
      search (preserving, find_persistent-Preserves, open_new-Preserves) depth 12

  pub bee_reconnect-Preserves : Preserves (bee_reconnect {T = T})
  unfolding bee_reconnect
  bee_reconnect-Preserves = search (preserving, bee_stream_close-Preserves, bee_connect-Preserves)
