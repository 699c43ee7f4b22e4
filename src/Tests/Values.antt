-- ===== src/Tests/Values.antt =====
-- Packing, measuring and unpacking a table with a list in it.
use bee_php.Prelude.{ℕ, ◌≡◌, true, none, [], ◌∷◌, ◌++◌, arith, pos, negsuc, length, codes, u64}
use bee_php.Engine.Zval.{index, name, Zval, null, long, bool, array, end, bucket, IsZval}
use bee_php.Engine.Php.{Php}
use bee_php.Engine.Outcome.{ok}
use bee_php.Msgpack.Buffer.Writes.{Appends}
use bee_php.Msgpack.Pack.{php_mp_pack}
use bee_php.Msgpack.Pack.Wire.{wire, php_mp_pack-wire}
use bee_php.Msgpack.Sizeof.{php_mp_sizeof}
use bee_php.Msgpack.Sizeof.Exact.{php_mp_sizeof-length}
use bee_php.Msgpack.Unpack.{php_mp_unpack}
use bee_php.Msgpack.Unpack.Total.{Ends, php_mp_unpack-Ends}
use bee_php.Msgpack.Unpack.Image.{image}
use bee_php.Msgpack.Unpack.RoundTrip.{php_mp_unpack-wire}
use bee_php.Tests.Codec.{codec}
use bee_php.Tests.Codec.Decodes.{codec-EncodesBySize, codec-DecodesBack}
use bee_php.Tests.Codec.Moves.{codec-Advances}
use bee_php.Tests.Memory.{allocator, allocator-IsAllocator, fresh, fresh-IsBuffer}

-- ["id" => -7, 4 => [true, null, 300]]
abbrev pub table : Zval
table = array 0 5 (
    bucket (name (codes "id")) (long (negsuc 6)) (
      bucket (index (pos 4))
        (array 0 3 (
          bucket (index (pos 0)) (bool true)
            (bucket (index (pos 1)) null (bucket (index (pos 2)) (long (pos 300)) end))))
        end))

pub table-IsZval : IsZval table
table-IsZval = (
  omega arith,
  (
    omega arith,
    omega arith,
    (
      omega arith,
      (omega arith, (omega arith, tt, (omega arith, tt, (omega arith, omega arith, tt)))),
      tt,
    ),
  ),
)

-- A PHP whose string keys are no numbers.
abbrev pub php : Php
php = record { numeric_key = λ s. none; float_to_double = λ d. d }

php_mp_pack-wire_example :
    Appends fresh (wire ⦃mp = codec⦄ table) (php_mp_pack ⦃mp = codec⦄ ⦃al = allocator⦄ table fresh)
php_mp_pack-wire_example =
    php_mp_pack-wire ⦃mp = codec⦄ ⦃al = allocator⦄ allocator-IsAllocator codec-EncodesBySize table
      fresh table-IsZval fresh-IsBuffer

php_mp_sizeof-length_example :
    u64 (php_mp_sizeof ⦃mp = codec⦄ table) ≡ u64 (length (wire ⦃mp = codec⦄ table))
php_mp_sizeof-length_example =
    php_mp_sizeof-length ⦃mp = codec⦄ codec-EncodesBySize table table-IsZval

php_mp_unpack-wire_example :
    (n : ℕ) × (php_mp_unpack ⦃mp = codec⦄ ⦃php = php⦄ (wire ⦃mp = codec⦄ table ++ (1 ∷ []))
      ≡ ok (n, image ⦃php = php⦄ table, 1 ∷ []))
php_mp_unpack-wire_example =
    php_mp_unpack-wire ⦃mp = codec⦄ ⦃php = php⦄ codec-DecodesBack table (1 ∷ []) table-IsZval

php_mp_unpack-Ends_example : Ends 4 (php_mp_unpack ⦃mp = codec⦄ ⦃php = php⦄ (0xce ∷ 0 ∷ 1 ∷ 2 ∷ []))
php_mp_unpack-Ends_example =
    php_mp_unpack-Ends ⦃mp = codec⦄ ⦃php = php⦄ codec-Advances (0xce ∷ 0 ∷ 1 ∷ 2 ∷ [])
