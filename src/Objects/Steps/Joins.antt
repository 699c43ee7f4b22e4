-- ===== src/Objects/Steps/Joins.antt =====
-- What the constructor of a persistent object does to the module, where it finds no connection of the
-- same arguments.
use bee_php.Prelude.{
  ℕ, suc, ◌+◌, ◌-◌, ◌≤◌, ◌≡◌, ◌≢◌, ◌∙◌, sym, refl, ap, arith, ◌||◌, ==_refl, Bool, Bool-cases,
  Option-cases, inl, inr, true, false, Option, none, some, [], ◌∷◌, ◌++◌, bytes_eq, bytes_eq→eq,
  bytes_eq_refl, length, length-take, length-append,
}
use bee_php.Engine.SmartString.{Allocator}
use bee_php.Engine.MHash.{MHash}
use bee_php.Engine.Streams.{Streams}
use bee_php.Engine.PersistentList.{ListEntry, PersistentList, IsPersistentList}
use bee_php.Engine.Outcome.{Outcome, ok, failure, fault, out_of_fuel, ◌>>=◌}
use bee_php.Schema.{SchemaSpaceValue, SchemaIndexValue}
use bee_php.Schema.Holds.{Returns, Returns-weaken}
use bee_php.Connection.State.{Types, Run, done, failed, crash, stuck}
use bee_php.Connection.Stream.{is_set}
use bee_php.Connection.Connect.{persistent_id}
use bee_php.Objects.{Module, changed, released, bee_connection_free, php_bee_dtor}
use bee_php.Objects.Construct.{
  Arguments, Settings, settings, valid_port, plist_id, find_key, update_key, new_connection, obtain,
  ours, points_to, destroy, updated, register, construct_found, construct_persistent, construct,
}
use bee_php.Objects.Steps.Alone.{not_both, changed_self, changed_other, Points}

-- The length of an id is at most that of the string with its NUL, and not 0.
plist_id_bounds :
    (v : Settings) → (1 ≤ (plist_id v).1) × ((plist_id v).1 ≤ length (plist_id v).0 + 1)
unfolding persistent_id
plist_id_bounds v = elim (Option-cases v.suffix) [
  | inl e ↦ rw (e, persistent_id) (omega arith, omega arith)
  | inr (s, e) ↦ rw (e, persistent_id) (omega arith, omega arith)
]

keys_differ : (v : Settings) → bytes_eq (update_key v) (find_key v) ≡ false
unfolding update_key find_key
keys_differ v = elim (Bool-cases (bytes_eq (update_key v) (find_key v))) [
  | inl same ↦
      let (low, high) = plist_id_bounds v in
      let e : length (update_key v) ≡ length (find_key v) =
        ap length (bytes_eq→eq (update_key v) (find_key v) same) in
      let whole = length-append (plist_id v).0 (0 ∷ []) in
      let front = length-take ((plist_id v).1 - 1) ((plist_id v).0 ++ (0 ∷ [])) in
      let all = length-take (plist_id v).1 ((plist_id v).0 ++ (0 ∷ [])) in absurd (omega arith)
  | inr e ↦ e
]

module _ {T : Types} {L : Type 0} where
  -- The connection at `p` is gone, and nothing else that the module keeps has changed.
  record Freed (p : ℕ) (m m' : Module T L) : Type 0 where
    gone : m'.cell p ≡ none
    same_objects : m'.objects ≡ m.objects
    same_list : m'.persistent_list ≡ m.persistent_list
    same_type : m'.le_bee ≡ m.le_bee
    same_setting : m'.persistent ≡ m.persistent

  module _ ⦃net : Streams T.World T.Stream⦄ where
    released-Freed :
        (p : ℕ) (m : Module T L) (r : Run T (Unit {0})) → Returns (Freed p m) (released p m r)
    released-Freed p m (done a s) = record {
      gone = changed_self p none m.cell;
      same_objects = refl;
      same_list = refl;
      same_type = refl;
      same_setting = refl;
    }
    released-Freed p m (failed s) = record {
      gone = changed_self p none m.cell;
      same_objects = refl;
      same_list = refl;
      same_type = refl;
      same_setting = refl;
    }
    released-Freed p m crash = tt
    released-Freed p m stuck = tt

    php_bee_dtor-Freed : (p : ℕ) (m : Module T L) → Returns (Freed p m) (php_bee_dtor p m)
    unfolding php_bee_dtor bee_connection_free
    php_bee_dtor-Freed p m = elim (Option-cases (m.cell p)) [
      | inl e ↦ rw e tt
      | inr (c, e) ↦ rw e (released-Freed p m _)
    ]

  module _ ⦃net : Streams T.World T.Stream⦄ ⦃plist : PersistentList L⦄ where
    -- The entry is in the list, and the connection of an own entry that it displaced is gone.
    record Registered (v : Settings) (p : ℕ) (m m' : Module T L) : Type 0 where
      displaced : Option ListEntry
      replaced :
          plist.update (update_key v) (record { type = m.le_bee; ptr = p }) m.persistent_list
          ≡ some (displaced, m'.persistent_list)
      gone : (q : ℕ) → ours m.le_bee displaced ≡ some q → m'.cell q ≡ none
      same_objects : m'.objects ≡ m.objects
      same_type : m'.le_bee ≡ m.le_bee
      same_setting : m'.persistent ≡ m.persistent

    destroyed-Registered :
        (v : Settings) (p : ℕ) (m : Module T L) (displaced : Option ListEntry) (l : L)
        → plist.update (update_key v) (record { type = m.le_bee; ptr = p }) m.persistent_list
          ≡ some (displaced, l)
        → (o : Option ℕ) → ours m.le_bee displaced ≡ o
        → Returns (Registered v p m) (destroy o (record m { persistent_list = l }))
    destroyed-Registered v p m displaced l e none own = record {
      displaced = displaced;
      replaced = e;
      gone = λ q own'. elim (not_both (sym own ∙ own')) [ ];
      same_objects = refl;
      same_type = refl;
      same_setting = refl;
    }
    destroyed-Registered v p m displaced l e (some ptr) own =
        Returns-weaken (Freed ptr (record m { persistent_list = l })) (Registered v p m) _
          (php_bee_dtor-Freed ptr (record m { persistent_list = l }))
          λ m' f. record {
            displaced = displaced;
            replaced = e ∙ ap (λ x. some (displaced, x)) (sym f.same_list);
            gone = λ q own'.
                let same : some ptr ≡ some q = sym own ∙ own' in
                let same' : ptr ≡ q = cc in rw (← same') f.gone;
            same_objects = f.same_objects;
            same_type = f.same_type;
            same_setting = f.same_setting;
          }

    register-Registered :
        (v : Settings) (p : ℕ) (m : Module T L) → Returns (Registered v p m) (register v p m)
    unfolding register
    register-Registered v p m =
        go (plist.update (update_key v) (record { type = m.le_bee; ptr = p }) m.persistent_list)
          refl
      where
        go :
            (u : Option (Option ListEntry × L))
            → plist.update (update_key v) (record { type = m.le_bee; ptr = p }) m.persistent_list
              ≡ u
            → Returns (Registered v p m) (updated m u)
        go none e = tt
        go (some (displaced, l)) e =
            destroyed-Registered v p m displaced l e (ours m.le_bee displaced) refl

    -- The object points to what was registered, and the other objects are as they were.
    pub record Joins (h : ℕ) (v : Settings) (m m' : Module T L) : Type 0 where
      pub ptr : ℕ
      displaced : Option ListEntry
      pub points : Points m'.objects h ptr
      pub others : (j : ℕ) → h ≢ j → m'.objects j ≡ m.objects j
      replaced :
          plist.update (update_key v) (record { type = m.le_bee; ptr = ptr }) m.persistent_list
          ≡ some (displaced, m'.persistent_list)
      gone : (q : ℕ) → ours m.le_bee displaced ≡ some q → m'.cell q ≡ none
      same_type : m'.le_bee ≡ m.le_bee
      same_setting : m'.persistent ≡ m.persistent

    module _ ⦃al : Allocator⦄ ⦃space_hash : MHash T.Spaces SchemaSpaceValue⦄
        ⦃index_hash : MHash T.Indexes SchemaIndexValue⦄ where
      construct_persistent-Joins :
          (h : ℕ) (x : Bool) (v : Settings) (m : Module T L)
          → ours m.le_bee (plist.find (find_key v) m.persistent_list) ≡ none
          → Returns
              (Joins h v m)
              (construct_persistent h (record { obj = none; is_persistent = x }) v m)
      unfolding construct_persistent obtain
      construct_persistent-Joins h x v m new =
          rw (new, construct_found) (joined _ (register-Registered v m.next _))
        where
          joined :
              (o : Outcome (Module T L))
              → Returns
                  (Registered v m.next (record m {
                    cell = changed m.next (some (new_connection v true)) m.cell;
                    next = suc m.next;
                  }))
                  o
              → Returns (Joins h v m) (o >>= λ m''. ok (points_to h m.next true m''))
          joined (ok m') r = record {
            ptr = m.next;
            displaced = r.displaced;
            points = (
              record { obj = some m.next; is_persistent = true },
              changed_self h _ m'.objects,
              refl,
            );
            others = λ j other. changed_other h j _ m'.objects other ∙ ap (λ f. f j) r.same_objects;
            replaced = r.replaced;
            gone = r.gone;
            same_type = r.same_type;
            same_setting = r.same_setting;
          }
          joined (failure e) r = tt
          joined fault r = tt
          joined out_of_fuel r = tt

      pub construct-Joins :
          (h : ℕ) (x : Bool) (args : Arguments) (port : ℕ) (m : Module T L)
          → valid_port args.port ≡ some port
          → (m.persistent || is_set args.suffix) ≡ true
          → m.objects h ≡ some (record { obj = none; is_persistent = x })
          → ours m.le_bee (plist.find (find_key (settings args port)) m.persistent_list) ≡ none
          → Returns (Joins h (settings args port) m) (construct h args m)
      unfolding construct
      construct-Joins h x args port m valid lasting there new =
          rw (there, valid, lasting) (construct_persistent-Joins h x (settings args port) m new)

      -- What the second constructor meets, after the first.
      pub second-Joins :
          (laws : IsPersistentList plist) (h j : ℕ) (x : Bool) (args : Arguments) (port : ℕ)
          (m m₁ : Module T L)
          → h ≢ j
          → valid_port args.port ≡ some port
          → (m.persistent || is_set args.suffix) ≡ true
          → m.objects j ≡ some (record { obj = none; is_persistent = x })
          → ours m.le_bee (plist.find (find_key (settings args port)) m.persistent_list) ≡ none
          → Joins h (settings args port) m m₁
          → Returns (Joins j (settings args port) m₁) (construct j args m₁)
      second-Joins laws h j x args port m m₁ differ valid lasting there new first =
          construct-Joins j x args port m₁ valid (rw first.same_setting lasting)
            (first.others j differ ∙ there) (ap (ours m₁.le_bee) unfound ∙ rw first.same_type new)
        where
          unfound :
              plist.find (find_key (settings args port)) m₁.persistent_list
              ≡ plist.find (find_key (settings args port)) m.persistent_list
          unfound =
              laws.find-update (update_key (settings args port)) (find_key (settings args port)) _ _
                _ _ first.replaced
              ∙ rw (keys_differ (settings args port)) refl

      -- The registration of the second object destroys the entry of the first.
      pub second_gone :
          (laws : IsPersistentList plist) (h j : ℕ) (v : Settings) (m m₁ m₂ : Module T L)
          (first : Joins h v m m₁)
          → Joins j v m₁ m₂
          → m₂.cell first.ptr ≡ none
      second_gone laws h j v m m₁ m₂ first second = second.gone first.ptr (
          ap (ours m₁.le_bee) (
            laws.update-find (update_key v) _ _ _ _ second.replaced
            ∙ laws.find-update (update_key v) (update_key v) _ _ _ _ first.replaced)
          ∙ rw (bytes_eq_refl (update_key v), first.same_type, ==_refl m.le_bee) refl)
