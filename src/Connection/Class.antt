-- ===== src/Connection/Class.antt =====
-- The table Bee_methods of src/bee.c without the constructor: what a script can call on an object,
-- one call after another.
use bee_php.Prelude.{Option, none, some, ℤ, Bytes}
use bee_php.Engine.Zval.{Zval}
use bee_php.Engine.SmartString.{Allocator}
use bee_php.Engine.MHash.{MHash}
use bee_php.Engine.MsgPuck.{MsgPuck}
use bee_php.Engine.Php.{Php}
use bee_php.Engine.Streams.{Streams}
use bee_php.Engine.Tp.{Tp}
use bee_php.Schema.{SchemaSpaceValue, SchemaIndexValue}
use bee_php.Connection.State.{Types, Session, Run, done, failed, Call, ◌>>=◌, ◌>>◌, return}
use bee_php.Connection.Methods

pub data BeeMethod : Type 0 where
  connect reconnect flush_schema close ping : BeeMethod
  authenticate : (login : Bytes) (passwd : Option Bytes) → BeeMethod
  select :
      (space : Zval) (key index zlimit : Option Zval) (offset : ℤ) (iterator : Option Zval)
      → BeeMethod
  insert replace : (space tuple : Zval) → BeeMethod
  delete : (space key : Zval) (index : Option Zval) → BeeMethod
  call eval : (proc : Bytes) (tuple : Option Zval) → BeeMethod
  update : (space key args : Zval) (index : Option Zval) → BeeMethod
  upsert : (space tuple args : Zval) → BeeMethod

module _ {T : Types} ⦃net : Streams T.World T.Stream⦄ ⦃mp : MsgPuck⦄ ⦃php : Php⦄ ⦃al : Allocator⦄
    ⦃tp : Tp⦄ ⦃space_hash : MHash T.Spaces SchemaSpaceValue⦄
    ⦃index_hash : MHash T.Indexes SchemaIndexValue⦄ where
  abbrev pub valueless : Call T (Unit {0}) → Call T (Option Zval)
  valueless m = do m; return none

  abbrev pub valued : Call T Zval → Call T (Option Zval)
  valued m = do v ← m; return (some v)

  unfoldable pub invoke : BeeMethod → Call T (Option Zval)
  invoke connect = valueless Methods.connect
  invoke reconnect = valueless Methods.reconnect
  invoke flush_schema = valueless Methods.flush_schema
  invoke close = valueless Methods.close
  invoke ping = valueless Methods.ping
  invoke (authenticate login passwd) = valueless (Methods.authenticate login passwd)
  invoke (select space key index zlimit offset iterator) =
      valued (Methods.select space key index zlimit offset iterator)
  invoke (insert space tuple) = valued (Methods.insert space tuple)
  invoke (replace space tuple) = valued (Methods.replace space tuple)
  invoke (delete space key index) = valued (Methods.delete space key index)
  invoke (call proc tuple) = valued (Methods.call proc tuple)
  invoke (eval proc tuple) = valued (Methods.eval proc tuple)
  invoke (update space key args index) = valued (Methods.update space key args index)
  invoke (upsert space tuple args) = valued (Methods.upsert space tuple args)

  -- A call that has ended, with a value or with false.
  pub data Leaves {A : Type 0} : Run T A → Session T → Type 0 where
    with_value : (a : A) (s : Session T) → Leaves (done a s) s
    with_false : (s : Session T) → Leaves (failed s) s

  pub data Reaches (s : Session T) : Session T → Type 0 where
    at_start : Reaches s s
    after_call :
        {s' s'' : Session T}
        → Reaches s s'
        → (m : BeeMethod) → Leaves (invoke m s') s''
        → Reaches s s''
