-- ===== src/Engine/Tp.antt =====
-- The request builder of third_party/tp.h, as far as the extension uses it: a sequence of calls on
-- a `struct tp` that was set to the start of a buffer.
use bee_php.Prelude.{ℕ, ◌≤◌, ◌≡◌, Option, List, Bytes, take}
use bee_php.Engine.SmartString.{SmartString, IsBuffer}

pub data TpCall : Type 0 where
  tp_select : (space index offset limit : ℕ) → TpCall
  tp_key : ℕ → TpCall
  tp_encode_str : Bytes → TpCall
  tp_encode_uint : ℕ → TpCall
  tp_reqid : ℕ → TpCall
  tp_auth : (salt user : Bytes) (pass : Option Bytes) → TpCall

pub record Tp : Type 0 where
  -- The buffer after the calls, and tp_used.
  pub build : List TpCall → SmartString → SmartString × ℕ
  pub requests : List TpCall → Bytes
  -- The bytes that the calls ask tp_ensure for.
  pub room : List TpCall → ℕ

-- Where the block has room for the calls, the requests lie at its start afterwards. The other case,
-- in which tp_ensure calls bee_tp_reserve, is left open.
pub record IsTp (tp : Tp) : Type 0 where
  pub build-IsBuffer :
      (calls : List TpCall) (s : SmartString)
      → IsBuffer s
      → tp.room calls ≤ s.a
      → IsBuffer (tp.build calls s).0
  pub used_within :
      (calls : List TpCall) (s : SmartString)
      → IsBuffer s
      → tp.room calls ≤ s.a
      → (tp.build calls s).1 ≤ (tp.build calls s).0.a
  pub build-requests :
      (calls : List TpCall) (s : SmartString)
      → IsBuffer s
      → tp.room calls ≤ s.a
      → take (tp.build calls s).1 (tp.build calls s).0.c ≡ tp.requests calls
