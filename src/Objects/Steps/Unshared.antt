-- ===== src/Objects/Steps/Unshared.antt =====
-- Scripts whose objects are not persistent: each object keeps its connection for itself.
use bee_php.Prelude.{
  ℕ, ◌≡◌, ◌∙◌, sym, refl, ap, arith, ◌||◌, Option-cases, inl, inr, false, Option, none, some,
}
use mathlib.Core.Path.{subst}
use bee_php.Engine.Zval.{Zval}
use bee_php.Engine.SmartString.{Allocator}
use bee_php.Engine.MHash.{MHash}
use bee_php.Engine.MsgPuck.{MsgPuck}
use bee_php.Engine.Php.{Php}
use bee_php.Engine.Streams.{Streams}
use bee_php.Engine.PersistentList.{PersistentList}
use bee_php.Engine.Tp.{Tp}
use bee_php.Engine.Outcome.{Outcome, ok, ◌>>=◌}
use bee_php.Schema.{SchemaSpaceValue, SchemaIndexValue}
use bee_php.Schema.Holds.{Returns}
use bee_php.Connection.State.{Types, Run, done, failed, crash, stuck}
use bee_php.Connection.Stream.{is_set}
use bee_php.Connection.Class.{BeeMethod}
use bee_php.Objects.{
  BeeObject, Module, changed, php_bee_init_globals, bee_create, released, bee_connection_free,
  bee_object_free,
}
use bee_php.Objects.Construct.{
  Arguments, Settings, settings, valid_port, new_connection, obtain, points_to, construct_plain,
  construct_at, construct,
}
use bee_php.Objects.Steps.{
  Plays, at_start, created, constructed, called, freed, left, without_connection, located, call_at,
  call_method,
}
use bee_php.Objects.Steps.Alone.{
  changed_self, not_both, Points, Live, AreAlone, remove-AreAlone, put_object-AreAlone,
  extend-AreAlone, store-AreAlone, discard-AreAlone,
}

module _ {T : Types} {L : Type 0} where
  -- The setting is off, no object is persistent, an object's address is one of a connection, and
  -- no two objects have the same.
  pub record IsAlone (m : Module T L) : Type 0 where
    pub unset : m.persistent ≡ false
    pub alone : AreAlone m.objects m.cell m.next

  bee_create-IsAlone : (h : ℕ) (m : Module T L) → IsAlone m → IsAlone (bee_create h m)
  unfolding bee_create
  bee_create-IsAlone h m s = record {
    unset = s.unset;
    alone = put_object-AreAlone s.alone h _ refl (λ p e. elim (not_both e) [ ]);
  }

  module _ ⦃net : Streams T.World T.Stream⦄ where
    released-IsAlone :
        (h p : ℕ) (m : Module T L) (r : Run T (Unit {0}))
        → Points m.objects h p
        → IsAlone m
        → Returns IsAlone
            (released p m r >>= λ m'. ok (record m' { objects = changed h none m'.objects }))
    released-IsAlone h p m (done a s') r s = record {
      unset = s.unset;
      alone = discard-AreAlone s.alone h p r;
    }
    released-IsAlone h p m (failed s') r s = record {
      unset = s.unset;
      alone = discard-AreAlone s.alone h p r;
    }
    released-IsAlone h p m crash r s = tt
    released-IsAlone h p m stuck r s = tt

    free_at-IsAlone :
        (h : ℕ) (m : Module T L) (o : BeeObject) (a : Option ℕ)
        → m.objects h ≡ some o
        → o.obj ≡ a
        → IsAlone m
        → Returns IsAlone (
            bee_connection_free a false m >>= λ m'.
            ok (record m' { objects = changed h none m'.objects }))
    unfolding bee_connection_free
    free_at-IsAlone h m o none e q s = record { unset = s.unset; alone = remove-AreAlone s.alone h }
    free_at-IsAlone h m o (some p) e q s =
        let (c, there) = s.alone.live h p (o, e, q) in
        rw there (released-IsAlone h p m _ (o, e, q) s)

    bee_object_free-IsAlone :
        (h : ℕ) (m : Module T L) → IsAlone m → Returns IsAlone (bee_object_free h m)
    unfolding bee_object_free
    bee_object_free-IsAlone h m s = elim (Option-cases (m.objects h)) [
      | inl e ↦ rw e tt
      | inr (o, e) ↦ rw (e, s.alone.plain h o e) (free_at-IsAlone h m o o.obj e refl s)
    ]

  module _ ⦃al : Allocator⦄ ⦃space_hash : MHash T.Spaces SchemaSpaceValue⦄
      ⦃index_hash : MHash T.Indexes SchemaIndexValue⦄ where
    points_to-IsAlone :
        (h : ℕ) (m : Module T L) (o : BeeObject) (v : Settings) (a : Option ℕ)
        → m.objects h ≡ some o
        → o.obj ≡ a
        → IsAlone m
        → IsAlone (let (p, m') = obtain a v false m in points_to h p false m')
    unfolding obtain
    points_to-IsAlone h m o v (some p) e q s = record {
      unset = s.unset;
      alone = put_object-AreAlone s.alone h _ refl λ p' same.
          let there : Points m.objects h p' = (o, e, q ∙ same) in
          (s.alone.live h p' there, λ j r. s.alone.apart j h p' r there);
    }
    points_to-IsAlone h m o v none e q s = record {
      unset = s.unset;
      alone = put_object-AreAlone (extend-AreAlone s.alone _) h _ refl λ p same.
          let there : m.next ≡ p = cc in
          (
            (
              new_connection v false,
              ap (changed m.next _ m.cell) (sym there) ∙ changed_self m.next _ m.cell,
            ),
            λ j r.
                let (c, found) = s.alone.live j p r in
                elim (not_both (sym (s.alone.unused p (omega (arith, there))) ∙ found)) [ ],
          );
    }

    module _ ⦃net : Streams T.World T.Stream⦄ ⦃plist : PersistentList L⦄ where
      construct_at-IsAlone :
          (h : ℕ) (m : Module T L) (o : BeeObject) (args : Arguments) (port : Option ℕ)
          → m.objects h ≡ some o
          → args.suffix ≡ none
          → IsAlone m
          → Returns IsAlone (construct_at h o args port m)
      unfolding construct_plain
      construct_at-IsAlone h m o args none e unsuffixed s = record {
        unset = s.unset;
        alone = s.alone;
      }
      construct_at-IsAlone h m o args (some port) e unsuffixed s =
          let off : (m.persistent || is_set args.suffix) ≡ false = rw (s.unset, unsuffixed) refl in
          rw off (points_to-IsAlone h m o (settings args port) o.obj e refl s)

      construct-IsAlone :
          (h : ℕ) (args : Arguments) (m : Module T L)
          → args.suffix ≡ none
          → IsAlone m
          → Returns IsAlone (construct h args m)
      unfolding construct
      construct-IsAlone h args m unsuffixed s = elim (Option-cases (m.objects h)) [
        | inl e ↦ rw e tt
        | inr (o, e) ↦ rw e (construct_at-IsAlone h m o args (valid_port args.port) e unsuffixed s)
      ]

  left-IsAlone :
      (p : ℕ) (m : Module T L) (r : Run T (Option Zval))
      → Live m.cell p
      → IsAlone m
      → Returns IsAlone (left p m r)
  left-IsAlone p m (done v s') there s = record {
    unset = s.unset;
    alone = store-AreAlone s.alone p _ there;
  }
  left-IsAlone p m (failed s') there s = record {
    unset = s.unset;
    alone = store-AreAlone s.alone p _ there;
  }
  left-IsAlone p m crash there s = tt
  left-IsAlone p m stuck there s = tt

  without_connection-IsAlone :
      (method : BeeMethod) (m : Module T L)
      → IsAlone m
      → Returns IsAlone (without_connection method m)
  without_connection-IsAlone BeeMethod.close m s = s
  without_connection-IsAlone other m s = tt

  module _ ⦃net : Streams T.World T.Stream⦄ ⦃mp : MsgPuck⦄ ⦃php : Php⦄ ⦃al : Allocator⦄ ⦃tp : Tp⦄
      ⦃space_hash : MHash T.Spaces SchemaSpaceValue⦄
      ⦃index_hash : MHash T.Indexes SchemaIndexValue⦄ where
    call_at-IsAlone :
        (method : BeeMethod) (o : BeeObject) (a : Option ℕ) (m : Module T L)
        → IsAlone m
        → Returns IsAlone (call_at method o (located a m) m)
    call_at-IsAlone method o none m s = without_connection-IsAlone method m s
    call_at-IsAlone method o (some p) m s = elim (Option-cases (m.cell p)) [
      | inl e ↦ rw (e, call_at, located) (without_connection-IsAlone method m s)
      | inr (c, e) ↦ rw (e, call_at, located) (left-IsAlone p m _ (c, e) s)
    ]

    call_method-IsAlone :
        (h : ℕ) (method : BeeMethod) (m : Module T L)
        → IsAlone m
        → Returns IsAlone (call_method h method m)
    unfolding call_method
    call_method-IsAlone h method m s = elim (Option-cases (m.objects h)) [
      | inl e ↦ rw e tt
      | inr (o, e) ↦ rw e (call_at-IsAlone method o o.obj m s)
    ]

    returned :
        (o : Outcome (Module T L)) (m : Module T L) → Returns IsAlone o → o ≡ ok m → IsAlone m
    returned o m h e = subst (Returns IsAlone) e h

    module _ ⦃plist : PersistentList L⦄ where
      Plays-kept : {m m' : Module T L} → Plays m m' → IsAlone m → IsAlone m'
      Plays-kept at_start s = s
      Plays-kept (created h r new) s = bee_create-IsAlone h _ (Plays-kept r s)
      Plays-kept (constructed h args r unsuffixed e) s =
          returned _ _ (construct-IsAlone h args _ unsuffixed (Plays-kept r s)) e
      Plays-kept (called h method r e) s =
          returned _ _ (call_method-IsAlone h method _ (Plays-kept r s)) e
      Plays-kept (freed h r e) s = returned _ _ (bee_object_free-IsAlone h _ (Plays-kept r s)) e

      -- From the start of the module on, in any sequence of steps that create objects, construct
      -- them without a suffix, call their methods and release them, each of which ended, and with
      -- the setting bee.persistent off: the address of an object is always one of a connection that
      -- was not given back, and no two objects have the same address.
      pub Plays-IsAlone :
          (l : L) (le_bee : ℕ) (w : T.World) {m : Module T L}
          → Plays (php_bee_init_globals l le_bee w) m
          → IsAlone m
      unfolding php_bee_init_globals
      Plays-IsAlone l le_bee w r = Plays-kept r (record {
        unset = refl;
        alone = record {
          unused = λ p above. refl;
          live = λ h p (o, e, q). elim (not_both e) [ ];
          plain = λ h o e. elim (not_both e) [ ];
          apart = λ h j p (o, e, q) r'. elim (not_both e) [ ];
        };
      })
