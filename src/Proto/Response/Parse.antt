-- ===== src/Proto/Response/Parse.antt =====
-- What php_tp_response makes of a well-formed response.
use Prim.Native.Nat.{bit_or}
use bee_php.Prelude.{
  ℕ, ◌-◌, ◌<◌, ◌≡◌, ◌%◌, ◌^◌, refl, ◌∙◌, ap, some, List, [], ◌∷◌, ◌++◌, append_assoc, arith, lt→ltb,
  ◌==◌, if◌then◌else◌, length, length-append, take-append_exact, Bytes, u32,
}
use bee_php.Engine.MsgPuck.{
  MpType, mp_uint, mp_str, mp_array, mp_map, mp_code, MsgPuck, typeof, DecodesBack,
}
use bee_php.Engine.Outcome.{ok}
use bee_php.Proto.Keys.{beex_code, beex_sync, beex_data, beex_error}
use bee_php.Proto.Response.{
  BeexResponse, blank, Parsed, between, is_type, header_value, header_entry, body_value, body_entry,
  entries, entry_map, php_tp_response,
}

-- A header as key and value numbers, and what the entries come to: the last code and sync count.
abbrev pub Header : Type 0
Header = List (ℕ × ℕ)

abbrev pub IsHeader : Header → Type 0
IsHeader [] = Unit {0}
IsHeader ((k, v) ∷ rest) = (k < 64) × (v < 2 ^ 32) × IsHeader rest

unfoldable pub set_entry : ℕ → ℕ → BeexResponse → BeexResponse
set_entry k v r = record r {
  bitmap = bit_or r.bitmap (2 ^ k);
  code = if k == beex_code then v else r.code;
  sync = if k == beex_sync then v else r.sync;
}

unfoldable pub apply_header : Header → BeexResponse → BeexResponse
unfolding set_entry
apply_header [] r = r
apply_header ((k, v) ∷ rest) r = apply_header rest (set_entry k v r)

module _ ⦃mp : MsgPuck⦄ where
  abbrev pub header_entries : Header → Bytes
  header_entries [] = []
  header_entries ((k, v) ∷ rest) = mp.encode_uint k ++ (mp.encode_uint v ++ header_entries rest)

  abbrev pub header_map : Header → Bytes
  header_map header = mp.encode_map (length header) ++ header_entries header

  -- A message of a header and a one-entry body.
  abbrev pub message : Header → ℕ → Bytes → Bytes
  message header k value = header_map header ++ (mp.encode_map 1 ++ (mp.encode_uint k ++ value))

  module _ (laws : DecodesBack mp) where
    is_type-typeof :
        (type : MpType) (p : Bytes) (t : MpType)
        → typeof mp p ≡ some t
        → is_type type p ≡ ok (mp_code t == mp_code type)
    unfolding is_type
    is_type-typeof type p t e = rw e

    header_value-set :
        (k v : ℕ) (r : BeexResponse) (p : Bytes)
        → v < 2 ^ 32
        → header_value k r (mp.encode_uint v ++ p)
          ≡ ok (
            record r {
              code = if k == beex_code then v else r.code;
              sync = if k == beex_sync then v else r.sync;
            },
            p,
          )
    unfolding header_value
    header_value-set k v r p h =
        ground (arith, laws.decode-uint v p (omega arith), laws.next-uint v p (omega arith))

    header_entry-set :
        (k v : ℕ) (r : BeexResponse) (p : Bytes)
        → k < 64
        → v < 2 ^ 32
        → header_entry r (mp.encode_uint k ++ (mp.encode_uint v ++ p))
          ≡ ok (set_entry k v r, some p)
    unfolding header_entry set_entry
    header_entry-set k v r p hk hv =
        let more = mp.encode_uint v ++ p in
        let small : u32 k ≡ k = omega arith in
        rw (
          is_type-typeof mp_uint _ _ (laws.typeof-uint k more (omega arith)),
          laws.decode-uint k more (omega arith),
          is_type-typeof mp_uint _ _ (laws.typeof-uint v p (omega arith)),
          small,
          header_value-set k v r p hv,
          lt→ltb k 64 hk,
        )

    entries-apply :
        (header : Header) (r : BeexResponse) (rest : Bytes)
        → IsHeader header
        → entries header_entry (length header) r (header_entries header ++ rest)
          ≡ ok (apply_header header r, some rest)
    unfolding entries apply_header
    entries-apply [] r rest h = refl
    entries-apply ((k, v) ∷ header) r rest (hk, hv, h) =
        let more = header_entries header in
        let split : (mp.encode_uint k ++ (mp.encode_uint v ++ more)) ++ rest
            ≡ mp.encode_uint k ++ (mp.encode_uint v ++ (more ++ rest)) =
          append_assoc (mp.encode_uint k) (mp.encode_uint v ++ more) rest
          ∙ ap (λ b. mp.encode_uint k ++ b) (append_assoc (mp.encode_uint v) more rest) in
        rw (split, header_entry-set k v r (more ++ rest) hk hv)
          (entries-apply header (set_entry k v r) rest h)

    entry_map-entries :
        (entry : BeexResponse → Bytes → Parsed) (n : ℕ) (r : BeexResponse) (p : Bytes)
        → n < 2 ^ 32
        → entry_map entry r (mp.encode_map n ++ p) ≡ entries entry n r p
    unfolding entry_map
    entry_map-entries entry n r p h =
        rw (is_type-typeof mp_map _ _ (laws.typeof-map n p h), laws.decode-map n p h)

    header-apply :
        (header : Header) (rest : Bytes)
        → IsHeader header
        → length header < 2 ^ 32
        → entry_map header_entry blank (header_map header ++ rest)
          ≡ ok (apply_header header blank, some rest)
    header-apply header rest h few =
        ap (entry_map header_entry blank) (append_assoc (mp.encode_map (length header)) _ rest)
        ∙ entry_map-entries header_entry (length header) blank _ few
        ∙ entries-apply header blank rest h

    -- A body of one entry.
    body_one :
        (k : ℕ) (r r' : BeexResponse) (value rest : Bytes)
        → k < 64
        → body_value k r (value ++ rest) ≡ ok (r', some rest)
        → entry_map body_entry r (mp.encode_map 1 ++ (mp.encode_uint k ++ (value ++ rest)))
          ≡ ok (record r' { bitmap = bit_or r'.bitmap (2 ^ k) }, some rest)
    unfolding body_entry entries
    body_one k r r' value rest hk e =
        let small : u32 k ≡ k = omega arith in
        entry_map-entries body_entry 1 r _ (omega arith)
        ∙ rw (laws.decode-uint k (value ++ rest) (omega arith), small, e, small, lt→ltb k 64 hk)

    take-between : (d rest : Bytes) → between (d ++ rest) rest ≡ d
    take-between d rest =
        take-append_exact d rest (length (d ++ rest) - length rest)
          (omega (arith, length-append d rest))

    pub response_one :
        (header : Header) (k : ℕ) (r' : BeexResponse) (value rest : Bytes)
        → IsHeader header
        → length header < 2 ^ 32
        → k < 64
        → body_value k (apply_header header blank) (value ++ rest) ≡ ok (r', some rest)
        → php_tp_response (message header k value ++ rest)
          ≡ ok (
            record r' { bitmap = bit_or r'.bitmap (2 ^ k) },
            some (length (message header k value)),
          )
    unfolding php_tp_response
    response_one header k r' value rest h few hk e =
        let body = mp.encode_map 1 ++ (mp.encode_uint k ++ value) in
        let split : message header k value ++ rest
            ≡ header_map header ++ (mp.encode_map 1 ++ (mp.encode_uint k ++ (value ++ rest))) =
          append_assoc (header_map header) body rest
          ∙ ap (λ b. header_map header ++ b)
              (append_assoc (mp.encode_map 1) (mp.encode_uint k ++ value) rest
                ∙ ap (λ b. mp.encode_map 1 ++ b) (append_assoc (mp.encode_uint k) value rest)) in
        let read : length (message header k value ++ rest) - length rest
            ≡ length (message header k value) =
          omega (arith, length-append (message header k value) rest) in
        ap php_tp_response split
        ∙ rw
            (
              header-apply header (mp.encode_map 1 ++ (mp.encode_uint k ++ (value ++ rest))) h few,
              body_one k (apply_header header blank) r' value rest hk e,
            )
            (rw (← split, read))

    pub body_value-data :
        (r : BeexResponse) (d rest : Bytes)
        → typeof mp (d ++ rest) ≡ some mp_array
        → mp.next (d ++ rest) ≡ some rest
        → body_value beex_data r (d ++ rest) ≡ ok (record r { response_data = some d }, some rest)
    unfolding body_value
    body_value-data r d rest is_array skips =
        rw (is_type-typeof mp_array _ _ is_array, skips, take-between d rest)

    pub body_value-error :
        (r : BeexResponse) (error rest : Bytes)
        → length error < 2 ^ 32
        → body_value beex_error r (mp.encode_str error ++ rest)
          ≡ ok (record r { error = some error; code = r.code % 2 ^ 15 }, some rest)
    unfolding body_value
    body_value-error r error rest h =
        rw (is_type-typeof mp_str _ _ (laws.typeof-str error rest h), laws.decode-str error rest h)
