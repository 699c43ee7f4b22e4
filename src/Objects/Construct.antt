-- ===== src/Objects/Construct.antt =====
-- The constructor of the class Bee in src/bee.c, behind the parsing of its arguments. Where PHP
-- reports an error that ends the request, the outcome is a failure. Allocation does not fail.
use bee_php.Prelude.{
  ℕ, suc, ◌-◌, ◌==◌, ltb, Bool, true, false, ◌||◌, if◌then◌else◌, Option, none, some, [], ◌∷◌, ◌++◌,
  ℤ, pos, negsuc, take, replicate, Bytes, codes,
}
use bee_php.Engine.SmartString.{Allocator}
use bee_php.Engine.MHash.{MHash}
use bee_php.Engine.Streams.{Streams}
use bee_php.Engine.PersistentList.{ListEntry, PersistentList}
use bee_php.Engine.Outcome.{Outcome, ok, failure, lift, bad_port, ◌>>=◌}
use bee_php.Proto.Keys.{greeting_size}
use bee_php.Msgpack.Buffer.{smart_string_ensure}
use bee_php.Schema.{SchemaSpaceValue, SchemaIndexValue, bee_schema_new}
use bee_php.Connection.State.{Types}
use bee_php.Connection.Stream.{is_set}
use bee_php.Connection.Names.{c_string}
use bee_php.Connection.Connect.{persistent_id}
use bee_php.Objects.{BeeConnection, BeeObject, Module, changed, set_object, php_bee_dtor}

-- The arguments as they are given, `port` being 0 where it is not.
pub record Arguments : Type 0 where
  pub host : Option Bytes
  pub port : ℤ
  pub login : Option Bytes
  pub passwd : Option Bytes
  pub suffix : Option Bytes

-- What the constructor makes of them, as strings of C.
pub record Settings : Type 0 where
  pub host : Bytes
  pub port : ℕ
  pub login : Bytes
  pub passwd : Option Bytes
  pub suffix : Option Bytes

abbrev pub default_to : Bytes → Option Bytes → Bytes
default_to d none = d
default_to d (some s) = c_string s

abbrev pub valid_port : ℤ → Option ℕ
valid_port (negsuc n) = none
valid_port (pos n) = if ltb n 65536 then some (if n == 0 then 3301 else n) else none

-- An empty password is none.
abbrev pub real_passwd : Option Bytes → Option Bytes
real_passwd none = none
real_passwd (some []) = none
real_passwd (some (b ∷ bs)) = some (c_string (b ∷ bs))

abbrev pub c_suffix : Option Bytes → Option Bytes
c_suffix none = none
c_suffix (some s) = some (c_string s)

abbrev pub settings : Arguments → (port : ℕ) → Settings
settings args port = record {
  host = default_to (codes "localhost") args.host;
  port = port;
  login = default_to (codes "guest") args.login;
  passwd = real_passwd args.passwd;
  suffix = c_suffix args.suffix;
}

-- The first bytes of an id and the NUL behind it, as many as are asked for.
abbrev pub key_of : Bytes × ℕ → ℕ → Bytes
key_of (plist_id, plist_id_len) n = take n (plist_id ++ (0 ∷ []))

abbrev pub plist_id : Settings → Bytes × ℕ
plist_id v = persistent_id v.host v.port (some v.login) (codes "plist") v.suffix

-- The key under which the persistent list is searched, and the one under which it is changed.
unfoldable pub find_key : Settings → Bytes
find_key v = key_of (plist_id v) (plist_id v).1

unfoldable pub update_key : Settings → Bytes
update_key v = key_of (plist_id v) ((plist_id v).1 - 1)

-- The address in an entry of the module's own type.
abbrev pub ours : (le_bee : ℕ) → Option ListEntry → Option ℕ
ours le_bee none = none
ours le_bee (some le) = if le.type == le_bee then some le.ptr else none

module _ {T : Types} ⦃al : Allocator⦄ ⦃space_hash : MHash T.Spaces SchemaSpaceValue⦄
    ⦃index_hash : MHash T.Indexes SchemaIndexValue⦄ where
  -- The suffix is not stored.
  unfoldable pub new_connection : Settings → (is_persistent : Bool) → BeeConnection T
  new_connection v is_persistent = record {
    host = v.host;
    port = v.port;
    login = some v.login;
    passwd = v.passwd;
    stream = none;
    schema = bee_schema_new;
    value = smart_string_ensure greeting_size (record { c = []; len = 0; a = 0 });
    greeting = replicate greeting_size 0;
    orig_login = some v.login;
    suffix = none;
    persistent_id =
        if is_persistent
        then some (persistent_id v.host v.port (some v.login) (codes "stream") v.suffix).0
        else none;
  }

module _ {T : Types} {L : Type 0} where
  module _ ⦃al : Allocator⦄ ⦃space_hash : MHash T.Spaces SchemaSpaceValue⦄
      ⦃index_hash : MHash T.Indexes SchemaIndexValue⦄ where
    -- The object's connection, or a new one.
    unfoldable pub obtain :
        Option ℕ → Settings → (is_persistent : Bool) → Module T L → ℕ × Module T L
    obtain (some p) v is_persistent m = (p, m)
    obtain none v is_persistent m = (
      m.next,
      record m {
        cell = changed m.next (some (new_connection v is_persistent)) m.cell;
        next = suc m.next;
      },
    )

  abbrev pub points_to : (handle p : ℕ) (is_persistent : Bool) → Module T L → Module T L
  points_to handle p is_persistent m =
      set_object handle (some (record { obj = some p; is_persistent = is_persistent })) m

  module _ ⦃net : Streams T.World T.Stream⦄ ⦃plist : PersistentList L⦄ where
    -- What Zend does with an entry that was displaced.
    abbrev pub destroy : Option ℕ → Module T L → Outcome (Module T L)
    destroy none m = ok m
    destroy (some ptr) m = php_bee_dtor ptr m

    abbrev pub updated : Module T L → Option (Option ListEntry × L) → Outcome (Module T L)
    updated m none = failure none
    updated m (some (displaced, l)) =
        destroy (ours m.le_bee displaced) (record m { persistent_list = l })

    unfoldable pub register : Settings → (ptr : ℕ) → Module T L → Outcome (Module T L)
    register v ptr m =
        updated m
          (plist.update (update_key v) (record { type = m.le_bee; ptr = ptr }) m.persistent_list)

    module _ ⦃al : Allocator⦄ ⦃space_hash : MHash T.Spaces SchemaSpaceValue⦄
        ⦃index_hash : MHash T.Indexes SchemaIndexValue⦄ where
      unfoldable pub construct_plain :
          (handle : ℕ) → BeeObject → Settings → Module T L → Outcome (Module T L)
      construct_plain handle o v m =
          let (p, m') = obtain o.obj v false m in ok (points_to handle p false m')

      abbrev pub construct_found :
          (handle : ℕ) → BeeObject → Settings → Option ℕ → Module T L → Outcome (Module T L)
      construct_found handle o v (some p) m = ok (points_to handle p true m)
      construct_found handle o v none m =
          let (p, m') = obtain o.obj v true m in
          register v p m' >>= λ m''. ok (points_to handle p true m'')

      unfoldable pub construct_persistent :
          (handle : ℕ) → BeeObject → Settings → Module T L → Outcome (Module T L)
      construct_persistent handle o v m =
          construct_found handle o v (ours m.le_bee (plist.find (find_key v) m.persistent_list)) m

      abbrev pub construct_at :
          (handle : ℕ) → BeeObject → Arguments → Option ℕ → Module T L → Outcome (Module T L)
      construct_at handle o args none m = ok (record m { thrown = bad_port args.port ∷ m.thrown })
      construct_at handle o args (some port) m =
          if m.persistent || is_set args.suffix
          then construct_persistent handle o (settings args port) m
          else construct_plain handle o (settings args port) m

      unfoldable pub construct : (handle : ℕ) → Arguments → Module T L → Outcome (Module T L)
      construct handle args m = do
        o ← lift (m.objects handle)
        construct_at handle o args (valid_port args.port) m
