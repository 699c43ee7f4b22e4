-- ===== src/Objects.antt =====
-- The objects of the class Bee and the connections that they point to, from their creation to
-- their release: bee_create, bee_connection_free, bee_object_free, php_bee_init_globals and
-- php_bee_dtor of src/bee.c.
pub mod Construct
pub mod Steps
use bee_php.Prelude.{
  ℕ, ◌==◌, Bool, true, false, if◌then◌else◌, Option, none, some, List, [], ℤ, pos, Bytes,
}
use bee_php.Engine.Zval.{Zval}
use bee_php.Engine.SmartString.{SmartString}
use bee_php.Engine.Streams.{Streams}
use bee_php.Engine.Outcome.{Exception, Outcome, ok, fault, out_of_fuel, lift, ◌>>=◌}
use bee_php.Schema.{BeeSchema}
use bee_php.Connection.State.{Types, Session, Run, done, failed, crash, stuck}
use bee_php.Connection.Stream.{bee_stream_close}

pub record BeeConnection (T : Types) : Type 0 where
  pub host : Bytes
  pub port : ℕ
  pub login : Option Bytes
  pub passwd : Option Bytes
  pub stream : Option T.Stream
  pub schema : BeeSchema T.Spaces T.Indexes
  pub value : SmartString
  pub greeting : Bytes
  pub orig_login : Option Bytes
  pub suffix : Option Bytes
  pub persistent_id : Option Bytes

-- `obj` is an address, or NULL.
pub record BeeObject : Type 0 where
  pub obj : Option ℕ
  pub is_persistent : Bool

-- The objects by their handles, the connections by their addresses, from which `next` and those
-- above it are unused, the globals, and what lies outside.
pub record Module (T : Types) (L : Type 0) : Type 0 where
  pub objects : ℕ → Option BeeObject
  pub cell : ℕ → Option (BeeConnection T)
  pub next : ℕ
  pub persistent_list : L
  pub le_bee : ℕ
  pub persistent : Bool
  pub sync_counter : ℕ
  pub retry_count : ℤ
  pub thrown : List Exception
  pub world : T.World

-- A table that is changed at one key.
abbrev pub changed {ℓ} : {A : Type ℓ} → ℕ → Option A → (ℕ → Option A) → ℕ → Option A
changed k a f j = if k == j then a else f j

abbrev pub connection_of : {T : Types} → Session T → BeeConnection T
connection_of s = record {
  host = s.host;
  port = s.port;
  login = s.login;
  passwd = s.passwd;
  stream = s.stream;
  schema = s.schema;
  value = s.value;
  greeting = s.greeting;
  orig_login = s.orig_login;
  suffix = s.suffix;
  persistent_id = s.persistent_id;
}

module _ {T : Types} {L : Type 0} where
  -- What a method works on: a connection, the flag of the object, the globals and the world.
  abbrev pub session_of : BeeConnection T → (is_persistent : Bool) → Module T L → Session T
  session_of c is_persistent m = record {
    host = c.host;
    port = c.port;
    login = c.login;
    passwd = c.passwd;
    stream = c.stream;
    schema = c.schema;
    value = c.value;
    greeting = c.greeting;
    orig_login = c.orig_login;
    suffix = c.suffix;
    persistent_id = c.persistent_id;
    is_persistent = is_persistent;
    sync_counter = m.sync_counter;
    retry_count = m.retry_count;
    thrown = m.thrown;
    world = m.world;
  }

  -- The module after a function that worked on a connection, which is then stored as `c`.
  abbrev pub kept_as : ℕ → Option (BeeConnection T) → Session T → Module T L → Module T L
  kept_as p c s m = record m {
    cell = changed p c m.cell;
    sync_counter = s.sync_counter;
    retry_count = s.retry_count;
    thrown = s.thrown;
    world = s.world;
  }

  abbrev pub set_object : ℕ → Option BeeObject → Module T L → Module T L
  set_object h o m = record m { objects = changed h o m.objects }

  -- The defaults, before the settings are read. `le_bee` is what Zend registers.
  unfoldable pub php_bee_init_globals : (l : L) (le_bee : ℕ) (w : T.World) → Module T L
  php_bee_init_globals l le_bee w = record {
    objects = λ h. none;
    cell = λ p. none;
    next = 0;
    persistent_list = l;
    le_bee = le_bee;
    persistent = false;
    sync_counter = 0;
    retry_count = pos 1;
    thrown = [];
    world = w;
  }

  -- A zeroed object, under a handle that Zend has chosen.
  unfoldable pub bee_create : (handle : ℕ) → Module T L → Module T L
  bee_create handle m = set_object handle (some (record { obj = none; is_persistent = false })) m

  module _ ⦃net : Streams T.World T.Stream⦄ where
    abbrev pub released : ℕ → Module T L → Run T (Unit {0}) → Outcome (Module T L)
    released p m (done a s) = ok (kept_as p none s m)
    released p m (failed s) = ok (kept_as p none s m)
    released p m crash = fault
    released p m stuck = out_of_fuel

    -- The stream is closed and the connection's memory is given back.
    unfoldable pub bee_connection_free :
        Option ℕ → (is_persistent : Bool) → Module T L → Outcome (Module T L)
    bee_connection_free none is_persistent m = ok m
    bee_connection_free (some p) is_persistent m = do
      c ← lift (m.cell p)
      released p m (bee_stream_close (session_of c is_persistent m))

    -- For an entry of the persistent list that is destroyed.
    unfoldable pub php_bee_dtor : (ptr : ℕ) → Module T L → Outcome (Module T L)
    php_bee_dtor ptr m = bee_connection_free (some ptr) true m

    abbrev pub released_with : BeeObject → Module T L → Outcome (Module T L)
    released_with o m =
        if o.is_persistent then ok m else bee_connection_free o.obj o.is_persistent m

    unfoldable pub bee_object_free : (handle : ℕ) → Module T L → Outcome (Module T L)
    bee_object_free handle m = do
      o ← lift (m.objects handle)
      m' ← released_with o m
      ok (set_object handle none m')
