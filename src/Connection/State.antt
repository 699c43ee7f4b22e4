-- ===== src/Connection/State.antt =====
-- What a method of the class works on: the globals of the module, the connection object, and the
-- outside world. An exception that is thrown does not leave the function, so it is recorded.
use bee_php.Prelude.{ℕ, ◌+◌, ℤ, u64, Option, none, some, List, ◌∷◌, Bool, true, false, Bytes}
use bee_php.Engine.SmartString.{SmartString}
use bee_php.Engine.Outcome.{Exception, Outcome, ok, failure, fault, out_of_fuel}
use bee_php.Schema.{BeeSchema}

-- The types of the libraries' values.
pub record Types : Type 1 where
  pub Spaces : Type 0
  pub Indexes : Type 0
  pub Stream : Type 0
  pub World : Type 0

-- bee_connection and bee_object, of which `host`, `port`, `suffix` and `orig_login` do not change;
-- the two counters of the module; the exceptions, the latest first; and the world.
pub record Session (T : Types) : Type 0 where
  pub host : Bytes
  pub port : ℕ
  pub login : Option Bytes
  pub passwd : Option Bytes
  pub stream : Option T.Stream
  pub schema : BeeSchema T.Spaces T.Indexes
  pub value : SmartString
  pub greeting : Bytes
  pub orig_login : Option Bytes
  pub suffix : Option Bytes
  pub persistent_id : Option Bytes
  pub is_persistent : Bool
  pub sync_counter : ℕ
  pub retry_count : ℤ
  pub thrown : List Exception
  pub world : T.World

-- The end of a run. `failed` is a return of FAILURE, -1 or NULL, or a RETURN_FALSE.
pub data Run (T : Types) (A : Type 0) : Type 0 where
  done : A → Session T → Run T A
  failed : Session T → Run T A
  crash stuck : Run T A

abbrev pub Call : Types → Type 0 → Type 0
Call T A = Session T → Run T A

module _ {T : Types} where
  infixl 5 ◌>>=◌ ◌>>◌
  abbrev pub ◌>>=◌ : {A B : Type 0} → Call T A → (A → Call T B) → Call T B
  ◌>>=◌ m f s = elim (m s) [
    | done a s' ↦ f a s'
    | failed s' ↦ failed s'
    | crash ↦ crash
    | stuck ↦ stuck
  ]

  abbrev pub ◌>>◌ : {A B : Type 0} → Call T A → Call T B → Call T B
  m >> k = m >>= λ _. k

  abbrev pub return : {A : Type 0} → A → Call T A
  return a s = done a s

  abbrev pub fail : {A : Type 0} → Call T A
  fail s = failed s

  abbrev pub crashes : {A : Type 0} → Call T A
  crashes s = crash

  abbrev pub gets : {A : Type 0} → (Session T → A) → Call T A
  gets f s = done (f s) s

  abbrev pub modify : (Session T → Session T) → Call T (Unit {0})
  modify f s = done tt (f s)

  -- THROW_EXC
  abbrev pub throw_exc : Exception → Call T (Unit {0})
  throw_exc e s = done tt (record s { thrown = e ∷ s.thrown })

  -- A part that does not touch the session. `attempt` gives `none` where it fails.
  abbrev pub run : {A : Type 0} → Outcome A → Call T A
  run (ok a) s = done a s
  run (failure none) s = failed s
  run (failure (some e)) s = failed (record s { thrown = e ∷ s.thrown })
  run fault s = crash
  run out_of_fuel s = stuck

  abbrev pub attempt : {A : Type 0} → Outcome A → Call T (Option A)
  attempt (ok a) s = done (some a) s
  attempt (failure none) s = done none s
  attempt (failure (some e)) s = done none (record s { thrown = e ∷ s.thrown })
  attempt fault s = crash
  attempt out_of_fuel s = stuck

  -- A call whose status is not looked at.
  abbrev pub regardless : Call T (Unit {0}) → Call T (Unit {0})
  regardless m s = elim (m s) [
    | done a s' ↦ done tt s'
    | failed s' ↦ done tt s'
    | crash ↦ crash
    | stuck ↦ stuck
  ]

  -- if (!…) return FAILURE, and the same with an exception.
  abbrev pub or_fail : Bool → Exception → Call T (Unit {0})
  or_fail true e = return tt
  or_fail false e = do throw_exc e; fail

  -- BEE_G(sync_counter)++
  unfoldable pub next_sync : Call T ℕ
  next_sync s = done s.sync_counter (record s { sync_counter = u64 (s.sync_counter + 1) })
