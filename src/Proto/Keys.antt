-- ===== src/Proto/Keys.antt =====
-- The numbers of src/bee_proto.h: keys of header and body, request types, iterators, sizes.
use bee_php.Prelude.{ℕ}

abbrev pub salt64_size : ℕ
salt64_size = 44

abbrev pub salt_size : ℕ
salt_size = 64

abbrev pub php_scramble_size : ℕ
php_scramble_size = 20

abbrev pub greeting_size : ℕ
greeting_size = 128

abbrev pub salt_prefix_size : ℕ
salt_prefix_size = 64

abbrev pub space_space : ℕ
space_space = 281

abbrev pub space_index : ℕ
space_index = 289

abbrev pub index_space_name : ℕ
index_space_name = 2

abbrev pub index_index_name : ℕ
index_index_name = 2

abbrev pub beex_code : ℕ
beex_code = 0

abbrev pub beex_sync : ℕ
beex_sync = 1

abbrev pub beex_schema_id : ℕ
beex_schema_id = 5

abbrev pub beex_space : ℕ
beex_space = 0x10

abbrev pub beex_index : ℕ
beex_index = 0x11

abbrev pub beex_limit : ℕ
beex_limit = 0x12

abbrev pub beex_offset : ℕ
beex_offset = 0x13

abbrev pub beex_iterator : ℕ
beex_iterator = 0x14

abbrev pub beex_key : ℕ
beex_key = 0x20

abbrev pub beex_tuple : ℕ
beex_tuple = 0x21

abbrev pub beex_function : ℕ
beex_function = 0x22

abbrev pub beex_username : ℕ
beex_username = 0x23

abbrev pub beex_expression : ℕ
beex_expression = 0x27

abbrev pub beex_ops : ℕ
beex_ops = 0x28

abbrev pub beex_data : ℕ
beex_data = 0x30

abbrev pub beex_error : ℕ
beex_error = 0x31

abbrev pub beex_ok : ℕ
beex_ok = 0

abbrev pub beex_select : ℕ
beex_select = 1

abbrev pub beex_insert : ℕ
beex_insert = 2

abbrev pub beex_replace : ℕ
beex_replace = 3

abbrev pub beex_update : ℕ
beex_update = 4

abbrev pub beex_delete : ℕ
beex_delete = 5

abbrev pub beex_call : ℕ
beex_call = 6

abbrev pub beex_auth : ℕ
beex_auth = 7

abbrev pub beex_eval : ℕ
beex_eval = 8

abbrev pub beex_upsert : ℕ
beex_upsert = 9

abbrev pub beex_ping : ℕ
beex_ping = 0x40

abbrev pub iterator_eq : ℕ
iterator_eq = 0

abbrev pub iterator_req : ℕ
iterator_req = 1

abbrev pub iterator_all : ℕ
iterator_all = 2

abbrev pub iterator_lt : ℕ
iterator_lt = 3

abbrev pub iterator_le : ℕ
iterator_le = 4

abbrev pub iterator_ge : ℕ
iterator_ge = 5

abbrev pub iterator_gt : ℕ
iterator_gt = 6

abbrev pub iterator_bitset_all_set : ℕ
iterator_bitset_all_set = 7

abbrev pub iterator_bitset_any_set : ℕ
iterator_bitset_any_set = 8

abbrev pub iterator_bitset_all_not_set : ℕ
iterator_bitset_all_not_set = 9

abbrev pub iterator_overlaps : ℕ
iterator_overlaps = 10

abbrev pub iterator_neighbor : ℕ
iterator_neighbor = 11
