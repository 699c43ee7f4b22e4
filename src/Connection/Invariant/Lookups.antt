-- ===== src/Connection/Invariant/Lookups.antt =====
-- Looking up a name keeps the connection well.
use bee_php.Prelude.{ℕ, zero, Bool, none, some, List, ℤ, negsuc, Bytes, Option-cases, inl, inr}
use bee_php.Engine.Zval.{Zval, null, long, string}
use bee_php.Engine.SmartString.{Allocator}
use bee_php.Engine.MHash.{MHash, IsMHash}
use bee_php.Engine.MsgPuck.{MsgPuck}
use bee_php.Engine.Streams.{Streams}
use bee_php.Engine.Tp.{Tp, TpCall}
use bee_php.Engine.Outcome.{Exception, Outcome, ok, failure, fault, out_of_fuel}
use bee_php.Proto.Response.{BeexResponse}
use bee_php.Schema.{
  BeeSchema, SchemaSpaceValue, SchemaIndexValue, bee_schema_add_spaces, bee_schema_add_indexes,
}
use bee_php.Schema.Free.{IsKeyed}
use bee_php.Schema.Holds.{Returns}
use bee_php.Schema.Keyed.{bee_schema_add-IsKeyed}
use bee_php.Connection.State.{Types, Session, Call, ◌>>=◌, ◌>>◌, return, modify, run}
use bee_php.Connection.Names.{
  unless_error, send_tp, read_block, read_response, cache_rows, fetch_rows, known_or,
  get_spaceno_by_name, get_indexno_by_name, data_bytes,
}
use bee_php.Connection.Invariant.{IsWell, After, Preserves, preserving}
use bee_php.Connection.Invariant.Streams.{
  bee_stream_send-Preserves, bee_stream_read-Preserves, read_into-Preserves,
}

module _ {Spaces Indexes : Type 0} ⦃space_hash : MHash Spaces SchemaSpaceValue⦄ where
  -- What is put into the cache keeps to its form.
  abbrev Adds :
      (BeeSchema Spaces Indexes → Bytes → Outcome (BeeSchema Spaces Indexes × Bool)) → Type 0
  Adds add =
      (s : BeeSchema Spaces Indexes) (buf : Bytes)
      → IsKeyed s.space_hash
      → Returns (λ (s', more). IsKeyed s'.space_hash) (add s buf)

module _ {T : Types} ⦃net : Streams T.World T.Stream⦄ ⦃mp : MsgPuck⦄ ⦃al : Allocator⦄ ⦃tp : Tp⦄
    ⦃space_hash : MHash T.Spaces SchemaSpaceValue⦄
    ⦃index_hash : MHash T.Indexes SchemaIndexValue⦄ where
  unless_error-Preserves : (resp : BeexResponse) → Preserves (unless_error {T = T} resp)
  unless_error-Preserves resp = elim (Option-cases resp.error) [
    | inl e ↦ rw e (search preserving)
    | inr (error, e) ↦ rw e (search preserving)
  ]

  pub send_tp-Preserves : (calls : List TpCall) → Preserves (send_tp {T = T} calls)
  unfolding send_tp
  send_tp-Preserves calls = search (preserving, bee_stream_send-Preserves)

  pub read_block-Preserves :
      (unread : Exception) (short : ℕ → Exception) → Preserves (read_block {T = T} unread short)
  unfolding read_block
  read_block-Preserves unread short =
      search (preserving, bee_stream_read-Preserves, read_into-Preserves) depth 12

  read_response-Preserves : Preserves (read_response {T = T})
  unfolding read_response
  read_response-Preserves =
      search (preserving, read_block-Preserves, unless_error-Preserves) depth 12

  cache_rows-Preserves :
      (add : BeeSchema T.Spaces T.Indexes → Bytes → Outcome (BeeSchema T.Spaces T.Indexes × Bool))
      → Adds add
      → (resp : BeexResponse) → Preserves (cache_rows {T = T} add resp)
  cache_rows-Preserves add h resp = record {
    after = λ s w.
        go s w (add s.schema (data_bytes resp.response_data))
          (h s.schema (data_bytes resp.response_data) w.schema-IsKeyed);
  }
    where
      go :
          (s : Session T)
          → IsWell s
          → (o : Outcome (BeeSchema T.Spaces T.Indexes × Bool))
          → Returns (λ (s', more). IsKeyed s'.space_hash) o
          → After (
              (do
                (schema', added) ← run o
                modify (λ s. record s { schema = schema' })
                return added)
                s)
      go s w (ok (schema', added)) k = record {
        schema-IsKeyed = k;
        greeting_long = w.greeting_long;
        counter_fits = w.counter_fits;
      }
      go s w (failure none) k = w
      go s w (failure (some e)) k = w
      go s w fault k = tt
      go s w out_of_fuel k = tt

  fetch_rows-Preserves :
      (calls : List TpCall)
      (add : BeeSchema T.Spaces T.Indexes → Bytes → Outcome (BeeSchema T.Spaces T.Indexes × Bool))
      (unparsed : Exception)
      → Adds add
      → Preserves (fetch_rows {T = T} calls add unparsed)
  unfolding fetch_rows
  fetch_rows-Preserves calls add unparsed h =
      search (preserving, send_tp-Preserves, read_response-Preserves, cache_rows-Preserves add h)
        depth 12

  known_or-Preserves : (number : ℤ) (k : Call T ℤ) → Preserves k → Preserves (known_or number k)
  known_or-Preserves (negsuc zero) k h = h
  known_or-Preserves number k h = search preserving

  module _ (tables : IsMHash space_hash) where
    pub cache_spaces :
        (resp : BeexResponse) → Preserves (cache_rows {T = T} bee_schema_add_spaces resp)
    cache_spaces resp =
        cache_rows-Preserves _ (λ s buf keyed. (bee_schema_add-IsKeyed tables s buf keyed).0) resp

    pub cache_indexes :
        (resp : BeexResponse) → Preserves (cache_rows {T = T} bee_schema_add_indexes resp)
    cache_indexes resp =
        cache_rows-Preserves _ (λ s buf keyed. (bee_schema_add-IsKeyed tables s buf keyed).1) resp

    fetch_rows_spaces :
        (calls : List TpCall) (unparsed : Exception)
        → Preserves (fetch_rows {T = T} calls bee_schema_add_spaces unparsed)
    fetch_rows_spaces calls unparsed =
        fetch_rows-Preserves calls _ unparsed
          λ s buf keyed. (bee_schema_add-IsKeyed tables s buf keyed).0

    fetch_rows_indexes :
        (calls : List TpCall) (unparsed : Exception)
        → Preserves (fetch_rows {T = T} calls bee_schema_add_indexes unparsed)
    fetch_rows_indexes calls unparsed =
        fetch_rows-Preserves calls _ unparsed
          λ s buf keyed. (bee_schema_add-IsKeyed tables s buf keyed).1

    pub get_spaceno_by_name-Preserves : (name : Zval) → Preserves (get_spaceno_by_name {T = T} name)
    unfolding get_spaceno_by_name
    get_spaceno_by_name-Preserves (long n) = search preserving
    get_spaceno_by_name-Preserves (string name) =
        search (preserving, known_or-Preserves, fetch_rows_spaces) depth 15
    get_spaceno_by_name-Preserves other = search preserving

    pub get_indexno_by_name-Preserves :
        (space_no : ℤ) (name : Zval) → Preserves (get_indexno_by_name {T = T} space_no name)
    unfolding get_indexno_by_name
    get_indexno_by_name-Preserves space_no null = search preserving
    get_indexno_by_name-Preserves space_no (long n) = search preserving
    get_indexno_by_name-Preserves space_no (string name) =
        search (preserving, known_or-Preserves, fetch_rows_indexes) depth 15
    get_indexno_by_name-Preserves space_no other = search preserving
