-- ===== src/Connection/Invariant/Methods.antt =====
-- Whatever a script calls, the connection stays well.
use bee_php.Prelude.{ℕ, zero, Option, none, some, ℤ, negsuc, Bytes}
use bee_php.Engine.Zval.{Zval, null, long}
use bee_php.Engine.SmartString.{SmartString, Allocator}
use bee_php.Engine.MHash.{MHash, IsMHash}
use bee_php.Engine.MsgPuck.{MsgPuck}
use bee_php.Engine.Php.{Php}
use bee_php.Engine.PhpStream.{IsPhpStream}
use bee_php.Engine.Streams.{Streams}
use bee_php.Engine.Tp.{Tp}
use bee_php.Msgpack.Buffer.{Action}
use bee_php.Schema.{SchemaSpaceValue, SchemaIndexValue}
use bee_php.Connection.State.{Types, Session}
use bee_php.Connection.Connect.{bee_connect, bee_reconnect}
use bee_php.Connection.Methods
use bee_php.Connection.Methods.{
  packed, pack, proper, data_of, return_data, check_limit, exchange, exchange_data, is_connected,
  has_ended, connect_on_demand, space_of, index_of,
}
use bee_php.Connection.Invariant.{IsWell, After, Preserves, preserving}
use bee_php.Connection.Invariant.Streams.{bee_stream_send-Preserves, bee_step_recv-Preserves}
use bee_php.Connection.Invariant.Lookups.{
  get_spaceno_by_name-Preserves, get_indexno_by_name-Preserves,
}
use bee_php.Connection.Invariant.Connects.{bee_connect-Preserves, bee_reconnect-Preserves}

module _ {T : Types} ⦃net : Streams T.World T.Stream⦄ ⦃mp : MsgPuck⦄ ⦃php : Php⦄ ⦃al : Allocator⦄
    ⦃tp : Tp⦄ ⦃space_hash : MHash T.Spaces SchemaSpaceValue⦄
    ⦃index_hash : MHash T.Indexes SchemaIndexValue⦄ (tables : IsMHash space_hash)
    (content : T.Stream → Bytes) (stream_laws : IsPhpStream net.reads content) where
  pack-Preserves : (encode : Action) → Preserves (pack {T = T} encode)
  pack-Preserves encode = record { after = λ s w. go s w (encode s.value) }
    where
      go : (s : Session T) → IsWell s → (o : Option SmartString) → After {T = T} (packed o s)
      go s w none = tt
      go s w (some v) = w

  proper-Preserves : (n : ℤ) → Preserves (proper {T = T} n)
  proper-Preserves (negsuc zero) = search preserving
  proper-Preserves n = search preserving

  data_of-Preserves : (o : Option Zval) → Preserves (data_of {T = T} o)
  data_of-Preserves none = search preserving
  data_of-Preserves (some v) = search preserving

  return_data-Preserves : (values : Zval × Zval) → Preserves (return_data {T = T} values)
  unfolding return_data
  return_data-Preserves (header, body) = search (preserving, data_of-Preserves)

  check_limit-Preserves : (zlimit : Option Zval) → Preserves (check_limit {T = T} zlimit)
  unfolding check_limit
  check_limit-Preserves none = search preserving
  check_limit-Preserves (some null) = search preserving
  check_limit-Preserves (some (long n)) = search preserving
  check_limit-Preserves (some other) = search preserving

  exchange-Preserves : (encode : ℕ → Action) → Preserves (exchange {T = T} encode)
  unfolding exchange
  exchange-Preserves encode =
      search (preserving, pack-Preserves, bee_stream_send-Preserves, bee_step_recv-Preserves) depth
        12

  exchange_data-Preserves : (encode : ℕ → Action) → Preserves (exchange_data {T = T} encode)
  unfolding exchange_data
  exchange_data-Preserves encode = search (preserving, exchange-Preserves, return_data-Preserves)

  connecting : Preserves (bee_connect {T = T})
  connecting = bee_connect-Preserves tables content stream_laws

  reconnecting : Preserves (bee_reconnect {T = T})
  reconnecting = bee_reconnect-Preserves tables content stream_laws

  is_connected-Preserves : Preserves (is_connected {T = T})
  is_connected-Preserves = record { after = λ s w. w }

  has_ended-Preserves : Preserves (has_ended {T = T})
  has_ended-Preserves = record { after = λ s w. w }

  connect_on_demand-Preserves : Preserves (connect_on_demand {T = T})
  unfolding connect_on_demand
  connect_on_demand-Preserves =
      search (preserving, is_connected-Preserves, has_ended-Preserves, connecting, reconnecting)
        depth 12

  space_of-Preserves : (space : Zval) → Preserves (space_of {T = T} space)
  unfolding space_of
  space_of-Preserves space =
      search (preserving, get_spaceno_by_name-Preserves tables, proper-Preserves)

  index_of-Preserves :
      (space_no : ℤ) (index : Option Zval) → Preserves (index_of {T = T} space_no index)
  unfolding index_of
  index_of-Preserves space_no none = search preserving
  index_of-Preserves space_no (some index) =
      search (preserving, get_indexno_by_name-Preserves tables, proper-Preserves)

  ruleset asking = (
    preserving, connect_on_demand-Preserves, space_of-Preserves, index_of-Preserves,
    exchange_data-Preserves, proper-Preserves, check_limit-Preserves,
  )
