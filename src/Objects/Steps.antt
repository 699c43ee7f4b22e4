-- ===== src/Objects/Steps.antt =====
-- What a script and the engine do with objects of the class: they are created, constructed, called
-- and released, in any order.
pub mod Alone
pub mod Unshared
pub mod Joins
pub mod Twice
use bee_php.Prelude.{ℕ, ◌≡◌, Option, none, some}
use bee_php.Engine.Zval.{Zval}
use bee_php.Engine.SmartString.{Allocator}
use bee_php.Engine.MHash.{MHash}
use bee_php.Engine.MsgPuck.{MsgPuck}
use bee_php.Engine.Php.{Php}
use bee_php.Engine.Streams.{Streams}
use bee_php.Engine.PersistentList.{PersistentList}
use bee_php.Engine.Tp.{Tp}
use bee_php.Engine.Outcome.{Outcome, ok, fault, out_of_fuel, lift, ◌>>=◌}
use bee_php.Schema.{SchemaSpaceValue, SchemaIndexValue}
use bee_php.Connection.State.{Types, Run, done, failed, crash, stuck}
use bee_php.Connection.Class.{BeeMethod, close, invoke}
use bee_php.Objects.{
  BeeConnection, BeeObject, Module, session_of, connection_of, kept_as, bee_create, bee_object_free,
}
use bee_php.Objects.Construct.{Arguments, construct}

module _ {T : Types} {L : Type 0} where
  abbrev pub left : ℕ → Module T L → Run T (Option Zval) → Outcome (Module T L)
  left p m (done v s) = ok (kept_as p (some (connection_of s)) s m)
  left p m (failed s) = ok (kept_as p (some (connection_of s)) s m)
  left p m crash = fault
  left p m stuck = out_of_fuel

  -- The one method that does not look at the connection.
  abbrev pub without_connection : BeeMethod → Module T L → Outcome (Module T L)
  without_connection close m = ok m
  without_connection other m = fault

  -- The address of an object and what lies there, if anything does.
  abbrev pub located : Option ℕ → Module T L → Option (ℕ × BeeConnection T)
  located none m = none
  located (some p) m = elim (m.cell p) [ none ↦ none | some c ↦ some (p, c) ]

  module _ ⦃net : Streams T.World T.Stream⦄ ⦃mp : MsgPuck⦄ ⦃php : Php⦄ ⦃al : Allocator⦄ ⦃tp : Tp⦄
      ⦃space_hash : MHash T.Spaces SchemaSpaceValue⦄
      ⦃index_hash : MHash T.Indexes SchemaIndexValue⦄ where
    abbrev pub call_at :
        BeeMethod → BeeObject → Option (ℕ × BeeConnection T) → Module T L → Outcome (Module T L)
    call_at method o none m = without_connection method m
    call_at method o (some (p, c)) m = left p m (invoke method (session_of c o.is_persistent m))

    -- A call of a method, whether it returns a value or false.
    unfoldable pub call_method : (handle : ℕ) → BeeMethod → Module T L → Outcome (Module T L)
    call_method handle method m = do
      o ← lift (m.objects handle)
      call_at method o (located o.obj m) m

    module _ ⦃plist : PersistentList L⦄ where
      -- A script whose objects are not persistent: the setting is off and no suffix is given.
      pub data Plays (m : Module T L) : Module T L → Type 0 where
        at_start : Plays m m
        created :
            {m' : Module T L} (handle : ℕ)
            → Plays m m'
            → m'.objects handle ≡ none
            → Plays m (bee_create handle m')
        constructed :
            {m' m'' : Module T L} (handle : ℕ) (args : Arguments)
            → Plays m m'
            → args.suffix ≡ none
            → construct handle args m' ≡ ok m''
            → Plays m m''
        called :
            {m' m'' : Module T L} (handle : ℕ) (method : BeeMethod)
            → Plays m m'
            → call_method handle method m' ≡ ok m''
            → Plays m m''
        freed :
            {m' m'' : Module T L} (handle : ℕ)
            → Plays m m'
            → bee_object_free handle m' ≡ ok m''
            → Plays m m''
