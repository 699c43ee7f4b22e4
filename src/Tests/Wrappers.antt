-- ===== src/Tests/Wrappers.antt =====
-- A request in a block of 256 bytes, with a name of 227 bytes to come.
use bee_php.Prelude.{◌+◌, ◌<◌, refl, false, none, some, arith, replicate}
use bee_php.Connection.Reserve.{bee_tp_reserve}
use bee_php.Connection.Wrapper.{Placed, StructTp, TpInit, bee_tp_update}
use bee_php.Connection.Wrapper.Requests.{IsTpInit, Request, updated, built, bee_tp_reserve_short}
use bee_php.Tests.Memory.{allocator}

abbrev lib : TpInit
lib = record {
  tp_init =
      λ buf size w. record { s = buf; p = buf; e = buf + size; size = none; sync = none; obj = w };
}

lib-IsTpInit : IsTpInit lib
lib-IsTpInit = record {
  init-s = λ buf size w. refl;
  init-p = λ buf size w. refl;
  init-e = λ buf size w. refl;
}

abbrev placed : Placed
placed = record { block_at = 4096; str = record { c = replicate 256 0; len = 0; a = 256 } }

-- Pointers into a block that is no more.
abbrev stale : StructTp
stale = record {
  s = 64;
  p = 90;
  e = 128;
  size = some 65;
  sync = some 70;
  obj = record { is_persistent = false };
}

-- 35 bytes of a select are built.
abbrev begun : StructTp
begun = record (bee_tp_update placed stale) { p = 4131; size = some 4096; sync = some 4105 }

begun-Request : Request ⦃lib = lib⦄ placed begun
unfolding bee_tp_update
begun-Request =
    built (bee_tp_update placed stale) 35 (some 4096) (some 4105) (updated stale) (omega arith)

bee_tp_reserve_short_example :
    4096 + (bee_tp_reserve ⦃al = allocator⦄ 232 placed.str).a < 4131 + 232
unfolding bee_tp_update
bee_tp_reserve_short_example =
    bee_tp_reserve_short ⦃lib = lib⦄ lib-IsTpInit ⦃al = allocator⦄ placed begun 232 begun-Request
      refl (omega arith) (omega arith)
