-- ===== src/Connection/Invariant.antt =====
-- What the calls keep to, whatever the streams do: rules for the steps that they are made of.
pub mod Streams
pub mod Lookups
pub mod Connects
pub mod Methods
use bee_php.Prelude.{
  ℕ, ◌+◌, ◌<◌, ◌^◌, ◌≡◌, arith, refl, Bool, true, false, Option, none, some, if◌then◌else◌, ℤ, pos,
  negsuc, length, Bytes, u64,
}
use bee_php.Engine.MHash.{MHash}
use bee_php.Engine.Outcome.{Exception, Outcome, ok, failure, fault, out_of_fuel}
use bee_php.Proto.Keys.{greeting_size}
use bee_php.Schema.{SchemaSpaceValue}
use bee_php.Schema.Free.{IsKeyed}
use bee_php.Connection.State.{
  Types, Session, Run, done, failed, crash, stuck, Call, ◌>>=◌, ◌>>◌, run, attempt, modify, return,
  fail, throw_exc, next_sync, regardless, or_fail, gets,
}

-- Each node of the cache lies under its name or its number, the block of the greeting has its
-- size, and the counter is a long.
pub record IsConnected {Spaces : Type 0} ⦃space_hash : MHash Spaces SchemaSpaceValue⦄ (t : Spaces)
    (greeting : Bytes) (sync_counter : ℕ) : Type 0 where
  pub schema-IsKeyed : IsKeyed t
  pub greeting_long : length greeting ≡ greeting_size
  pub counter_fits : sync_counter < 2 ^ 64

module _ {T : Types} ⦃space_hash : MHash T.Spaces SchemaSpaceValue⦄ where
  abbrev pub IsWell : Session T → Type 0
  IsWell s = IsConnected s.schema.space_hash s.greeting s.sync_counter

  -- However the run ends.
  abbrev pub After : {A : Type 0} → Run T A → Type 0
  After (done a s) = IsWell s
  After (failed s) = IsWell s
  After crash = Unit {0}
  After stuck = Unit {0}

  pub record Preserves {A : Type 0} (m : Call T A) : Type 0 where
    pub after : (s : Session T) → IsWell s → After (m s)

  bind-After :
      {A B : Type 0} (m : Call T A) (f : A → Call T B) (s : Session T)
      → After (m s)
      → ((a : A) → Preserves (f a))
      → After ((m >>= f) s)
  bind-After {A = A} m f s w k = go (m s) w
    where
      go : (r : Run T A) → After r → After (◌>>=◌ (λ _. r) f s)
      go (done a s') w' = (k a).after s' w'
      go (failed s') w' = w'
      go crash w' = tt
      go stuck w' = tt

  pub bind :
      {A B : Type 0} (m : Call T A) (f : A → Call T B)
      → Preserves m
      → ((a : A) → Preserves (f a))
      → Preserves (m >>= f)
  bind m f h k = record { after = λ s w. bind-After m f s (h.after s w) k }

  pub then_bind :
      {B : Type 0} (m : Call T (Unit {0})) (k : Call T B)
      → Preserves m
      → Preserves k
      → Preserves (m >> k)
  then_bind m k h l = bind m (λ _. k) h (λ _. l)

  pub modify-Preserves :
      (f : Session T → Session T)
      → ((s : Session T) → IsWell s → IsWell (f s))
      → Preserves (modify f)
  modify-Preserves f h = record { after = λ s w. h s w }

  pub done-Preserves : {A : Type 0} (a : A) → Preserves (return a)
  done-Preserves a = record { after = λ s w. w }

  pub fail-Preserves : {A : Type 0} → Preserves {A = A} fail
  fail-Preserves = record { after = λ s w. w }

  pub throw-Preserves : (e : Exception) → Preserves (throw_exc e)
  throw-Preserves e = record { after = λ s w. w }

  pub gets-Preserves : {A : Type 0} (f : Session T → A) → Preserves (gets f)
  gets-Preserves f = record { after = λ s w. w }

  pub run-Preserves : {A : Type 0} (o : Outcome A) → Preserves (run o)
  run-Preserves (ok a) = record { after = λ s w. w }
  run-Preserves (failure none) = record { after = λ s w. w }
  run-Preserves (failure (some e)) = record { after = λ s w. w }
  run-Preserves fault = record { after = λ s w. tt }
  run-Preserves out_of_fuel = record { after = λ s w. tt }

  pub attempt-Preserves : {A : Type 0} (o : Outcome A) → Preserves (attempt o)
  attempt-Preserves (ok a) = record { after = λ s w. w }
  attempt-Preserves (failure none) = record { after = λ s w. w }
  attempt-Preserves (failure (some e)) = record { after = λ s w. w }
  attempt-Preserves fault = record { after = λ s w. tt }
  attempt-Preserves out_of_fuel = record { after = λ s w. tt }

  pub if-Preserves :
      {A : Type 0} (b : Bool) (m k : Call T A)
      → Preserves m
      → Preserves k
      → Preserves (if b then m else k)
  if-Preserves true m n h k = h
  if-Preserves false m n h k = k

  pub or_fail-Preserves : (b : Bool) (e : Exception) → Preserves (or_fail b e)
  or_fail-Preserves true e = record { after = λ s w. w }
  or_fail-Preserves false e = record { after = λ s w. w }

  pub next_sync-Preserves : Preserves next_sync
  unfolding next_sync
  next_sync-Preserves = record {
    after = λ s w. record {
      schema-IsKeyed = w.schema-IsKeyed;
      greeting_long = w.greeting_long;
      counter_fits = omega arith;
    };
  }

  regardless-After : (m : Call T (Unit {0})) (s : Session T) → After (m s) → After (regardless m s)
  regardless-After m s w = go (m s) w
    where
      go : (r : Run T (Unit {0})) → After r → After (regardless (λ _. r) s)
      go (done a s') w' = w'
      go (failed s') w' = w'
      go crash w' = tt
      go stuck w' = tt

  pub regardless-Preserves : (m : Call T (Unit {0})) → Preserves m → Preserves (regardless m)
  regardless-Preserves m h = record { after = λ s w. regardless-After m s (h.after s w) }

pub ruleset preserving = (
  bind, then_bind, modify-Preserves, done-Preserves, fail-Preserves, throw-Preserves,
  gets-Preserves, run-Preserves, attempt-Preserves, if-Preserves, or_fail-Preserves,
  next_sync-Preserves, regardless-Preserves,
)
