-- ===== src/Connection/Runs.antt =====
-- What holds when a run ends.
use bee_php.Engine.Outcome.{Outcome, ok, failure, fault, out_of_fuel}
use bee_php.Connection.State.{Types, Session, Run, done, failed, crash, stuck, Call, ◌>>=◌, run}

-- The outcome is a value or undefined behaviour.
abbrev pub IsPlain : {A : Type 0} → Outcome A → Type 0
IsPlain (ok a) = Unit {0}
IsPlain (failure e) = ⊥
IsPlain fault = Unit {0}
IsPlain out_of_fuel = ⊥

module _ {T : Types} where
  -- The run is not cut short. If it returns, the value and the session have `P`, and if it fails,
  -- the session has `Q`.
  abbrev pub Ends :
      {A : Type 0} (P : A → Session T → Type 0) (Q : Session T → Type 0) → Run T A → Type 0
  Ends P Q (done a s) = P a s
  Ends P Q (failed s) = Q s
  Ends P Q crash = Unit {0}
  Ends P Q stuck = ⊥

  pub >>=-Ends :
      {A B : Type 0} (P : A → Session T → Type 0) (P' : B → Session T → Type 0)
      (Q : Session T → Type 0) (m : Call T A) (f : A → Call T B) (s : Session T)
      → Ends P Q (m s)
      → ((a : A) (s' : Session T) → P a s' → Ends P' Q (f a s'))
      → Ends P' Q ((m >>= f) s)
  >>=-Ends P P' Q m f s h k = go (m s) h
    where
      go : (r : Run T _) → Ends P Q r → Ends P' Q (◌>>=◌ (λ _. r) f s)
      go (done a s') h = k a s' h
      go (failed s') h = h
      go crash h = tt
      go stuck h = elim h [ ]

  pub run_keeps :
      {A : Type 0} (P Q : Session T → Type 0) (o : Outcome A) (s : Session T)
      → IsPlain o
      → P s
      → Ends (λ a s'. P s') Q (run o s)
  run_keeps P Q (ok a) s h p = p
  run_keeps P Q (failure e) s h p = elim h [ ]
  run_keeps P Q fault s h p = tt
  run_keeps P Q out_of_fuel s h p = elim h [ ]
