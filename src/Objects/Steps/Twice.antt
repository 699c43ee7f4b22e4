-- ===== src/Objects/Steps/Twice.antt =====
-- Two persistent objects of the same arguments: the second one's constructor does not find the
-- connection of the first, and its registration gives that connection's memory back.
use mathlib.Core.Path.{subst}
use bee_php.Prelude.{ℕ, ◌≡◌, ◌≢◌, ◌∙◌, sym, refl, ◌||◌, Bool, true, none, some}
use bee_php.Engine.SmartString.{Allocator}
use bee_php.Engine.MHash.{MHash}
use bee_php.Engine.Streams.{Streams}
use bee_php.Engine.PersistentList.{PersistentList, IsPersistentList}
use bee_php.Engine.Outcome.{ok, fault}
use bee_php.Schema.{SchemaSpaceValue, SchemaIndexValue}
use bee_php.Schema.Holds.{Returns}
use bee_php.Connection.State.{Types}
use bee_php.Connection.Stream.{is_set}
use bee_php.Objects.{Module}
use bee_php.Objects.Construct.{Arguments, Settings, settings, valid_port, find_key, ours, construct}
use bee_php.Engine.MsgPuck.{MsgPuck}
use bee_php.Engine.Php.{Php}
use bee_php.Engine.Tp.{Tp}
use bee_php.Connection.Class.{BeeMethod}
use bee_php.Objects.Steps.{without_connection, located, call_at, call_method}
use bee_php.Objects.Steps.Alone.{Points}
use bee_php.Objects.Steps.Joins.{Joins, construct-Joins, second-Joins, second_gone}

module _ {T : Types} {L : Type 0} where
  without_connection_faults :
      (method : BeeMethod) (m : Module T L)
      → method ≢ BeeMethod.close
      → without_connection method m ≡ fault
  without_connection_faults BeeMethod.close m other = elim (other refl) [ ]
  without_connection_faults method m other = refl

  module _ ⦃net : Streams T.World T.Stream⦄ ⦃mp : MsgPuck⦄ ⦃php : Php⦄ ⦃al : Allocator⦄ ⦃tp : Tp⦄
      ⦃space_hash : MHash T.Spaces SchemaSpaceValue⦄
      ⦃index_hash : MHash T.Indexes SchemaIndexValue⦄ where
    dangling_faults :
        (h p : ℕ) (method : BeeMethod) (m : Module T L)
        → method ≢ BeeMethod.close
        → Points m.objects h p
        → m.cell p ≡ none
        → call_method h method m ≡ fault
    unfolding call_method
    dangling_faults h p method m other (o, there, points) gone =
        rw (there, points, gone, call_at, located) (without_connection_faults method m other)

    -- Two objects are constructed, one after the other, with the same arguments, a valid port among
    -- them, and persistent by the setting or by a suffix, and the list has no connection under the
    -- key that the constructor looks up. When both constructors have returned, the first object
    -- points to a connection that was given back, and a call of any method but close on it uses
    -- that memory.
    pub construct_twice :
        ⦃plist : PersistentList L⦄ (laws : IsPersistentList plist) (h j : ℕ) (x y : Bool)
        (args : Arguments) (port : ℕ) (method : BeeMethod) (m m₁ m₂ : Module T L)
        → h ≢ j
        → method ≢ BeeMethod.close
        → valid_port args.port ≡ some port
        → (m.persistent || is_set args.suffix) ≡ true
        → m.objects h ≡ some (record { obj = none; is_persistent = x })
        → m.objects j ≡ some (record { obj = none; is_persistent = y })
        → ours m.le_bee (plist.find (find_key (settings args port)) m.persistent_list) ≡ none
        → construct h args m ≡ ok m₁
        → construct j args m₁ ≡ ok m₂
        → (p : ℕ) × Points m₂.objects h p × (m₂.cell p ≡ none) × (call_method h method m₂ ≡ fault)
    construct_twice ⦃plist⦄ laws h j x y args port method m m₁ m₂ differ other valid lasting at_h
          at_j new once again =
        let v : Settings = settings args port in
        let first : Joins h v m m₁ =
          subst (Returns (Joins h v m)) once
            (construct-Joins h x args port m valid lasting at_h new) in
        let second : Joins j v m₁ m₂ =
          subst (Returns (Joins j v m₁)) again
            (second-Joins laws h j y args port m m₁ differ valid lasting at_j new first) in
        let (o, found, points) = first.points in
        let points' : Points m₂.objects h first.ptr =
          (o, second.others h (λ e. differ (sym e)) ∙ found, points) in
        let gone = second_gone laws h j v m m₁ m₂ first second in
        (first.ptr, points', gone, dangling_faults h first.ptr method m₂ other points' gone)
