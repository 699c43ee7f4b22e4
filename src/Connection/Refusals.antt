-- ===== src/Connection/Refusals.antt =====
-- Connections that do not come about.
use bee_php.Prelude.{
  ℕ, zero, suc, ◌+◌, ◌≡◌, refl, ap, false, inl, Option, none, some, ◌∷◌, ℤ, pos, negsuc, u32, u64,
  Bytes,
}
use bee_php.Engine.SmartString.{SmartString, Allocator}
use bee_php.Engine.MHash.{MHash}
use bee_php.Engine.MsgPuck.{MsgPuck}
use bee_php.Engine.Php.{Php}
use bee_php.Engine.Streams.{Streams}
use bee_php.Engine.Tp.{Tp}
use bee_php.Engine.Outcome.{Exception, connect_failed}
use bee_php.Msgpack.Buffer.{Action}
use bee_php.Proto.Encode.{php_tp_encode_ping}
use bee_php.Schema.{SchemaSpaceValue, SchemaIndexValue}
use bee_php.Connection.State.{Types, Session, done, failed, crash, Call, ◌>>=◌, ◌>>◌, next_sync}
use bee_php.Connection.Stream.{beexll_stream_open, bee_stream_send}
use bee_php.Connection.Connect.{opened, open_stream, attempts, open_new, bee_connect}
use bee_php.Connection.Receive.{bee_step_recv}
use bee_php.Connection.Methods.{packed, exchange, connect_on_demand, ping}

-- A function applied so many times.
unfoldable pub repeated {ℓ} : {A : Type ℓ} → ℕ → (A → A) → A → A
repeated zero f a = a
repeated (suc n) f a = repeated n f (f a)

module _ {World Stream : Type 0} (net : Streams World Stream) where
  -- In any state of the world the server refuses the connection, with a code and in a state of the
  -- world afterwards that differ from attempt to attempt.
  pub record Refuses (host : Bytes) (port : ℕ) (code : World → ℕ) (next : World → World)
      : Type 0 where
    pub refused :
        (pid : Option Bytes) (w : World) → net.xport_create host port pid w ≡ (code w, none, next w)

  refused_open :
      (host : Bytes) (port : ℕ) (code : World → ℕ) (next : World → World) (pid : Option Bytes)
      (w : World)
      → Refuses host port code next
      → beexll_stream_open net host port pid w ≡ (inl (connect_failed (code w)), next w)
  unfolding beexll_stream_open
  refused_open host port code next pid w r =
      rw (beexll_stream_open, r.refused pid w, r.refused pid w)

module _ {T : Types} where
  -- Not persistent, and with so many attempts.
  abbrev pub tries : ℤ → Session T → Session T
  tries count s = record s { is_persistent = false; retry_count = count }

  -- Not persistent, without a stream and a password, and with a negative retry count.
  abbrev pub never_tried : ℕ → Session T → Session T
  never_tried n s = record s {
    stream = none;
    is_persistent = false;
    passwd = none;
    retry_count = negsuc n;
  }

module _ {T : Types} ⦃net : Streams T.World T.Stream⦄ ⦃mp : MsgPuck⦄ ⦃al : Allocator⦄ ⦃tp : Tp⦄
    ⦃space_hash : MHash T.Spaces SchemaSpaceValue⦄
    ⦃index_hash : MHash T.Indexes SchemaIndexValue⦄ where
  module _ (code : T.World → ℕ) (next : T.World → T.World) where
    -- The world after so many refusals.
    abbrev pub refused_times : ℕ → Session T → Session T
    refused_times n s = record s { world = repeated n next s.world }

    open_stream-Refuses :
        (count : ℤ) (s : Session T)
        → Refuses net s.host s.port code next
        → open_stream (tries count s)
          ≡ done (some (connect_failed (code s.world))) (refused_times 1 (tries count s))
    unfolding open_stream repeated
    open_stream-Refuses count s r =
        ap (λ o. opened o (tries count s))
          (refused_open net s.host s.port code next s.persistent_id s.world r)

    attempts-Refuses :
        (n : ℕ) (count : ℤ) (err : Option Exception) (s : Session T)
        → Refuses net s.host s.port code next
        → attempts (suc n) err (tries count s)
          ≡ done
              (zero, some (connect_failed (code (repeated n next s.world))))
              (refused_times (suc n) (tries count s))
    unfolding attempts repeated
    attempts-Refuses zero count err s r = rw (attempts, ◌>>◌, ◌>>=◌, open_stream-Refuses count s r)
    attempts-Refuses (suc n) count err s r =
        rw (attempts, ◌>>◌, ◌>>=◌, open_stream-Refuses count s r)
          (attempts-Refuses n count (some (connect_failed (code s.world)))
            (record s { world = next s.world }) r)

    -- __bee_connect, for a connection that is not persistent, a server that refuses each connection,
    -- with a code that can differ from attempt to attempt, and a retry count above 0, makes exactly
    -- as many attempts as the retry count says, throws the message of the last one and fails.
    -- Nothing but the world and the exceptions has changed.
    pub bee_connect-Refuses :
        (n : ℕ) (s : Session T)
        → Refuses net s.host s.port code next
        → let s' : Session T = tries (pos (suc n)) s in
          bee_connect s'
          ≡ failed (record s' {
            world = repeated (suc n) next s.world;
            thrown = connect_failed (code (repeated n next s.world)) ∷ s.thrown;
          })
    unfolding bee_connect open_new
    bee_connect-Refuses n s r = rw (attempts-Refuses n (pos (suc n)) none s r, ◌>>=◌)

  bee_connect_negative :
      (n : ℕ) (login : Option Bytes) (s : Session T)
      → let s' : Session T = never_tried n (record s { login = login }) in
        bee_connect s' ≡ done tt s'
  unfolding bee_connect open_new
  bee_connect_negative n none s = refl
  bee_connect_negative n (some login) s = refl

  module _ ⦃php : Php⦄ where
    packed_null :
        {A : Type 0} (o : Option SmartString) (k : Call T A) (s : Session T)
        → (do packed o; bee_stream_send; k) (record s { stream = none }) ≡ crash
    unfolding bee_stream_send
    packed_null none k s = refl
    packed_null (some v) k s = refl

    exchange_null :
        (encode : ℕ → Action) (s : Session T) → exchange encode (record s { stream = none }) ≡ crash
    unfolding exchange next_sync
    exchange_null encode s =
        packed_null (encode (u32 s.sync_counter) s.value) (bee_step_recv s.sync_counter)
          (record s { sync_counter = u64 (s.sync_counter + 1) })

    -- ping, for an object that is not persistent, has no stream and no password, ends in a use of
    -- the null stream when the retry count is negative: there is no attempt to connect and no
    -- exception.
    pub ping_negative : (n : ℕ) (s : Session T) → ping (never_tried n s) ≡ crash
    unfolding ping connect_on_demand
    ping_negative n s = rw (
      bee_connect_negative n s.login s,
      ◌>>=◌,
      exchange_null php_tp_encode_ping (never_tried n s),
    )
