-- ===== src/Connection/Names/Again.antt =====
-- A name that was looked up once is known from then on.
use bee_php.Prelude.{ℤ, zero, suc, pos, negsuc, u32, to_u64, none, some, ◌≡◌, refl, Bytes}
use mathlib.Core.Path.{subst}
use bee_php.Engine.Zval.{string}
use bee_php.Engine.SmartString.{Allocator}
use bee_php.Engine.MHash.{MHash}
use bee_php.Engine.MsgPuck.{MsgPuck}
use bee_php.Engine.Streams.{Streams}
use bee_php.Engine.Tp.{Tp}
use bee_php.Engine.Outcome.{Outcome, ok, failure, fault, out_of_fuel}
use bee_php.Schema.{
  SchemaSpaceValue, SchemaIndexValue, bee_schema_get_sid_by_string, bee_schema_get_iid_by_string,
}
use bee_php.Connection.State.{
  Types, Session, Run, done, failed, crash, stuck, Call, ◌>>=◌, ◌>>◌, gets, fail, run,
}
use bee_php.Connection.Names.{known_or, get_spaceno_by_name, get_indexno_by_name}

-- A number other than -1.
abbrev Known : ℤ → Type 0
Known (negsuc zero) = ⊥
Known number = Unit {0}

module _ {T : Types} where
  -- What is returned is what the lookup `o` gives in the session that is left.
  abbrev Settled : (o : Session T → Outcome ℤ) → Run T ℤ → Type 0
  Settled o (done n s) = (o s ≡ ok n) × Known n
  Settled o other = Unit {0}

  record Settles (o : Session T → Outcome ℤ) (m : Call T ℤ) : Type 0 where
    ends : (s : Session T) → Settled o (m s)

  bind-Settles :
      {A : Type 0} (o : Session T → Outcome ℤ) (m : Call T A) (f : A → Call T ℤ)
      → ((a : A) → Settles o (f a))
      → Settles o (m >>= f)
  bind-Settles o m f h = record { ends = λ s. go (m s) s }
    where
      go : (r : Run T _) (s : Session T) → Settled o (◌>>=◌ (λ _. r) f s)
      go (done a s') s = (h a).ends s'
      go (failed s') s = tt
      go crash s = tt
      go stuck s = tt

  then-Settles :
      (o : Session T → Outcome ℤ) (m : Call T (Unit {0})) (k : Call T ℤ)
      → Settles o k
      → Settles o (m >> k)
  then-Settles o m k h = bind-Settles o m (λ _. k) (λ _. h)

  fail-Settles : (o : Session T → Outcome ℤ) → Settles o fail
  fail-Settles o = record { ends = λ s. tt }

  module _ ⦃net : Streams T.World T.Stream⦄ ⦃mp : MsgPuck⦄ ⦃al : Allocator⦄ ⦃tp : Tp⦄
      ⦃space_hash : MHash T.Spaces SchemaSpaceValue⦄
      ⦃index_hash : MHash T.Indexes SchemaIndexValue⦄ where
    known_or-Settled :
        (o : Session T → Outcome ℤ) (k : Call T ℤ) (s : Session T) (n : ℤ)
        → o s ≡ ok n
        → Settles o k
        → Settled o (known_or n k s)
    known_or-Settled o k s (pos n) e h = (e, tt)
    known_or-Settled o k s (negsuc zero) e h = h.ends s
    known_or-Settled o k s (negsuc (suc n)) e h = (e, tt)

    abbrev sid : Bytes → Session T → Outcome ℤ
    sid name s = ok (bee_schema_get_sid_by_string s.schema name)

    abbrev iid : ℤ → Bytes → Session T → Outcome ℤ
    iid space_no name s = bee_schema_get_iid_by_string s.schema (u32 (to_u64 space_no)) name

    sid-Settles :
        (name : Bytes) (k : Call T ℤ)
        → Settles (sid name) k
        → Settles
            (sid name)
            (do found ← gets (λ s. bee_schema_get_sid_by_string s.schema name); known_or found k)
    sid-Settles name k h = record { ends = λ s. known_or-Settled (sid name) k s _ refl h }

    iid-Settles :
        (space_no : ℤ) (name : Bytes) (k : Call T ℤ)
        → Settles (iid space_no name) k
        → Settles (iid space_no name) (do
          schema ← gets (λ s. s.schema)
          found ← run (bee_schema_get_iid_by_string schema (u32 (to_u64 space_no)) name)
          known_or found k)
    iid-Settles space_no name k h = record { ends = λ s. go s (iid space_no name s) refl }
      where
        go :
            (s : Session T) (r : Outcome ℤ)
            → iid space_no name s ≡ r
            → Settled (iid space_no name) ((do found ← run r; known_or found k) s)
        go s (ok n) e = known_or-Settled (iid space_no name) k s n e h
        go s (failure none) e = tt
        go s (failure (some x)) e = tt
        go s fault e = tt
        go s out_of_fuel e = tt

    spaceno-Settles : (name : Bytes) → Settles (sid name) (get_spaceno_by_name (string name))
    unfolding get_spaceno_by_name
    spaceno-Settles name = search (sid-Settles, bind-Settles, then-Settles, fail-Settles) depth 8

    indexno-Settles :
        (space_no : ℤ) (name : Bytes)
        → Settles (iid space_no name) (get_indexno_by_name space_no (string name))
    unfolding get_indexno_by_name
    indexno-Settles space_no name =
        search (iid-Settles, bind-Settles, then-Settles, fail-Settles) depth 8

    known_or-Known : (n : ℤ) (k : Call T ℤ) (s : Session T) → Known n → known_or n k s ≡ done n s
    known_or-Known (pos n) k s h = refl
    known_or-Known (negsuc zero) k s h = elim h [ ]
    known_or-Known (negsuc (suc n)) k s h = refl

    -- get_spaceno_by_name, when it has returned a number for a name, from the cache or after an
    -- exchange with the server, returns the same number for the name again, and leaves the session
    -- as it is.
    pub get_spaceno_by_name_again :
        (name : Bytes) (n : ℤ) (s s' : Session T)
        → get_spaceno_by_name (string name) s ≡ done n s'
        → get_spaceno_by_name (string name) s' ≡ done n s'
    unfolding get_spaceno_by_name
    get_spaceno_by_name_again name n s s' e =
        let (same, known) = subst (Settled (sid name)) e ((spaceno-Settles name).ends s) in
        let found : bee_schema_get_sid_by_string s'.schema name ≡ n = cc in
        rw found (known_or-Known n _ s' known)

    -- get_indexno_by_name, when it has returned a number for a name in a space, from the cache or
    -- after an exchange with the server, returns the same number for the name again, and leaves the
    -- session as it is.
    pub get_indexno_by_name_again :
        (space_no : ℤ) (name : Bytes) (n : ℤ) (s s' : Session T)
        → get_indexno_by_name space_no (string name) s ≡ done n s'
        → get_indexno_by_name space_no (string name) s' ≡ done n s'
    unfolding get_indexno_by_name
    get_indexno_by_name_again space_no name n s s' e =
        let (same, known) =
          subst (Settled (iid space_no name)) e ((indexno-Settles space_no name).ends s) in
        rw (◌>>=◌, same) (known_or-Known n _ s' known)
