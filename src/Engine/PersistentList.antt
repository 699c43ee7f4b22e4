-- ===== src/Engine/PersistentList.antt =====
-- EG(persistent_list), the table of what outlives a request, and what Zend does with an entry that
-- another one displaces.
use bee_php.Prelude.{ℕ, ◌≡◌, Option, some, Bytes, bytes_eq, if◌then◌else◌}

-- zend_rsrc_list_entry: `ptr` is an address.
pub record ListEntry : Type 0 where
  pub type : ℕ
  pub ptr : ℕ

pub record PersistentList (L : Type 0) : Type 0 where
  pub find : Bytes → L → Option ListEntry
  -- zend_hash_update: none is FAILURE, else the entry that was under the key, which Zend hands to
  -- the destructor of its type, and the table.
  pub update : Bytes → ListEntry → L → Option (Option ListEntry × L)

pub record IsPersistentList {L : Type 0} (plist : PersistentList L) : Type 0 where
  pub update-find :
      (k : Bytes) (e : ListEntry) (l l' : L) (displaced : Option ListEntry)
      → plist.update k e l ≡ some (displaced, l')
      → displaced ≡ plist.find k l
  pub find-update :
      (k j : Bytes) (e : ListEntry) (l l' : L) (displaced : Option ListEntry)
      → plist.update k e l ≡ some (displaced, l')
      → plist.find j l' ≡ (if bytes_eq k j then some e else plist.find j l)
