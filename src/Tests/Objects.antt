-- ===== src/Tests/Objects.antt =====
-- Objects of a script, alone and persistent.
use bee_php.Prelude.{
  ℕ, ◌≡◌, ◌≢◌, refl, ◌||◌, true, false, none, some, List, [], ◌∷◌, pos, arith, Bytes, bytes_eq,
}
use bee_php.Engine.Outcome.{Outcome, ok, fault}
use bee_php.Engine.PersistentList.{ListEntry, PersistentList, IsPersistentList}
use bee_php.Connection.Stream.{is_set, bee_stream_close}
use bee_php.Connection.Connect.{persistent_id, decimal}
use bee_php.Connection.Class.{BeeMethod, invoke}
use bee_php.Connection.Methods
use bee_php.Objects.{
  Module, php_bee_init_globals, bee_create, bee_connection_free, php_bee_dtor, bee_object_free,
}
use bee_php.Objects.Construct.{
  Arguments, settings, find_key, update_key, obtain, ours, register, construct_plain,
  construct_persistent, construct,
}
use bee_php.Objects.Steps.{Plays, at_start, created, constructed, called, freed, call_method}
use bee_php.Objects.Steps.Alone.{Points}
use bee_php.Objects.Steps.Unshared.{IsAlone, Plays-IsAlone}
use bee_php.Objects.Steps.Twice.{construct_twice}
use bee_php.Tests.Codec.{codec}
use bee_php.Tests.Memory.{allocator}
use bee_php.Tests.Values.{php}
use bee_php.Tests.Hashes.{spaces, indexes, find_node}
use bee_php.Tests.Connections.{types, server, no_builder}

abbrev List0 : Type 0
List0 = List (Bytes × ListEntry)

abbrev plist : PersistentList List0
plist = record { find = find_node; update = λ k e l. some (find_node k l, (k, e) ∷ l) }

plist-IsPersistentList : IsPersistentList plist
plist-IsPersistentList = record {
  update-find = λ k e l l' displaced h. cc;
  find-update = λ k j e l l' displaced h. (let same : l' ≡ (k, e) ∷ l = cc in rw same refl);
}

abbrev no_arguments : Arguments
no_arguments = record { host = none; port = pos 0; login = none; passwd = none; suffix = none }

abbrev started : Module types List0
started = php_bee_init_globals [] 9 tt

abbrev module_of : Outcome (Module types List0) → Module types List0
module_of (ok m) = m
module_of other = started

abbrev made : Module types List0 → Module types List0
made m = module_of (
    construct {T = types} ⦃net = server []⦄ ⦃plist = plist⦄ ⦃al = allocator⦄ ⦃space_hash = spaces⦄
      ⦃index_hash = indexes⦄ 0 no_arguments m)

-- An object is created, constructed, asked to flush its cache, and released.
abbrev fresh_object : Module types List0
fresh_object = bee_create 0 started

abbrev ready : Module types List0
ready = made fresh_object

abbrev flushed : Module types List0
flushed = module_of (
    call_method {T = types} ⦃net = server []⦄ ⦃mp = codec⦄ ⦃php = php⦄ ⦃al = allocator⦄
      ⦃tp = no_builder⦄ ⦃space_hash = spaces⦄ ⦃index_hash = indexes⦄ 0 BeeMethod.flush_schema ready)

abbrev gone : Module types List0
gone = module_of (bee_object_free {T = types} ⦃net = server []⦄ 0 flushed)

script :
    Plays {T = types} ⦃net = server []⦄ ⦃mp = codec⦄ ⦃php = php⦄ ⦃al = allocator⦄ ⦃tp = no_builder⦄
      ⦃space_hash = spaces⦄ ⦃index_hash = indexes⦄ ⦃plist = plist⦄ started gone
unfolding php_bee_init_globals bee_create construct construct_plain obtain call_method invoke
    Methods.flush_schema bee_object_free bee_connection_free bee_stream_close
script =
    freed 0
      (called 0 BeeMethod.flush_schema
        (constructed 0 no_arguments (created 0 at_start refl) refl refl) refl)
      refl

Plays-IsAlone_example : IsAlone gone
Plays-IsAlone_example =
    Plays-IsAlone {T = types} ⦃net = server []⦄ ⦃mp = codec⦄ ⦃php = php⦄ ⦃al = allocator⦄
      ⦃tp = no_builder⦄ ⦃space_hash = spaces⦄ ⦃index_hash = indexes⦄ ⦃plist = plist⦄ [] 9 tt script

-- Two objects of the same arguments with the setting on.
abbrev lasting : Module types List0
lasting = bee_create 1 (bee_create 0 (record started { persistent = true }))

abbrev constructed_at : ℕ → Module types List0 → Outcome (Module types List0)
constructed_at h m =
    construct {T = types} ⦃net = server []⦄ ⦃plist = plist⦄ ⦃al = allocator⦄ ⦃space_hash = spaces⦄
      ⦃index_hash = indexes⦄ h no_arguments m

abbrev first : Module types List0
first = module_of (constructed_at 0 lasting)

abbrev second : Module types List0
second = module_of (constructed_at 1 first)

first-constructed : constructed_at 0 lasting ≡ ok first
unfolding php_bee_init_globals bee_create construct construct_persistent register update_key
    find_key obtain
first-constructed = refl

second-constructed : constructed_at 1 first ≡ ok second
unfolding php_bee_init_globals bee_create construct construct_persistent register update_key
    find_key obtain persistent_id decimal bytes_eq php_bee_dtor bee_connection_free bee_stream_close
second-constructed = refl

zero_not_one : ◌≢◌ {A = ℕ} 0 1
zero_not_one e = ground arith

ping_not_close : ◌≢◌ {A = BeeMethod} BeeMethod.ping BeeMethod.close
ping_not_close e = cc

two_objects :
    (lasting.objects 0 ≡ some (record { obj = none; is_persistent = false }))
    × (lasting.objects 1 ≡ some (record { obj = none; is_persistent = false }))
    × (lasting.persistent || is_set no_arguments.suffix ≡ true)
    × (ours lasting.le_bee
          (plist.find (find_key (settings no_arguments 3301)) lasting.persistent_list)
        ≡ none)
unfolding php_bee_init_globals bee_create
two_objects = (refl, refl, refl, refl)

construct_twice_example :
    (p : ℕ) × Points second.objects 0 p
    × (second.cell p ≡ none)
    × (call_method {T = types} ⦃net = server []⦄ ⦃mp = codec⦄ ⦃php = php⦄ ⦃al = allocator⦄
          ⦃tp = no_builder⦄ ⦃space_hash = spaces⦄ ⦃index_hash = indexes⦄ 0 BeeMethod.ping second
        ≡ fault)
construct_twice_example =
    construct_twice {T = types} ⦃net = server []⦄ ⦃mp = codec⦄ ⦃php = php⦄ ⦃al = allocator⦄
      ⦃tp = no_builder⦄ ⦃space_hash = spaces⦄ ⦃index_hash = indexes⦄ ⦃plist = plist⦄
      plist-IsPersistentList 0 1 false false no_arguments 3301 BeeMethod.ping lasting first second
      zero_not_one ping_not_close refl two_objects.2 two_objects.0 two_objects.1 two_objects.3
      first-constructed second-constructed
