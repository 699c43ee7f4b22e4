-- ===== src/Lib.antt =====
-- bee-php, a PHP extension in C that talks to a database server over MessagePack. The
-- development describes the path of a request and of its reply: a method of the class Bee
-- (Connection) connects where it has to, the arguments of the call are checked (Client), names
-- are looked up in a cache (Schema), a request is packed into a growing buffer (Msgpack) inside
-- the packet of the protocol (Proto) and sent (Network), and the server's reply is read, taken
-- apart and unpacked to a PHP value.
--
-- The files:
-- - Prelude: Boolean tests, lists and integers that the rest shares. A size_t is a number
--   modulo 2 ^ 64, a uint32_t modulo 2 ^ 32, a long an integer of 64 bits.
-- - Engine: what PHP and third_party/msgpuck.h provide. Zval is PHP's value and Buckets its
--   hash table in insertion order, HashTable the calls of the Zend hash API, SmartString the
--   buffer, MsgPuck the encoders and decoders with their documented behaviour (EncodesBySize,
--   DecodesBack, Advances), Outcome success, FAILURE with the exception thrown, and undefined
--   behaviour, Streams the calls of PHP's streams on an outside world, Tp the request builder
--   of third_party/tp.h.
-- - Msgpack: src/bee_msgpack.c. Buffer has smart_string_ensure and the append, Pack the
--   php_mp_pack functions, Sizeof the php_mp_sizeof functions, Unpack the php_mp_unpack
--   functions, Names op_to_string. Pack/Forms says which tables are sent as maps and which as
--   nil, Pack/Wire what is appended, Sizeof/Exact that sizes agree, Unpack/Total that the
--   recursion ends, Unpack/RoundTrip what is read back, which Unpack/Image describes.
-- - Proto: src/bee_proto.c and src/bee_proto.h. Keys has the constants, Sizes the php_tp_sizeof
--   functions, Encode the php_tp_encode functions, Response php_tp_response. Encode/Packet and
--   Encode/Bodies describe a request on the wire, Encode/Queries and Encode/Changes relate the
--   encoders to it, and Encode/Requests all but two of them at once, Response/Replies says how
--   the server's two kinds of reply are parsed.
-- - Network: the reading loop of src/bee_network.c over PHP's streams, which are
--   Engine/PhpStream. Network/Whole says what it reads. The other functions of that file that
--   are called are in Connection/Stream.
-- - Schema: src/bee_schema.c, the cache of the numbers of spaces and indexes. Rows describes
--   the server's rows, Spaces what reading the rows of spaces does, Lookup what is found by
--   name, Indexes the same for indexes, Holds how a predicate on the cache is kept, Keyed what
--   holds of the keys of the cache's nodes, Free what the flush does, Releases, Placed and
--   Owned which tables of indexes are given back, Refines what the cache is from outside: a map
--   from names to numbers. The hash tables of third_party/mhash.h are Engine/MHash.
-- - Connection: the object, the functions and the methods of src/bee.c. State has the object
--   with the module's counters and the outside world, and how the steps of a function are put
--   together, Stream sending, reading and closing, Receive bee_step_recv, Names
--   get_spaceno_by_name and get_indexno_by_name, Connect __bee_connect and __bee_authenticate,
--   Methods the methods, Class the calls a script can make, one after another, Reserve the
--   function of src/bee_tp.c that the request builder calls, Wrapper the others of that file.
--   Receive/Clears, Receive/Empties, Receive/Replies, Receive/Answers and Receive/Huge say what
--   receiving does, Names/Again what a second lookup of a name does, Names/Blocks and
--   Names/Discovery what the server's answer to a first one does, Wrapper/Requests where a
--   request is built, Exchange what a request and its answer do, Exchange/Short what a request
--   that is cut short does to the next, Invariant what all methods keep, Refusals what is done
--   where a server refuses or no attempt is made.
-- - Objects: the objects of the class and the connections that they point to (bee_create,
--   bee_connection_free, bee_object_free, php_bee_dtor and the defaults of the globals in
--   src/bee.c). Construct has the constructor and the persistent list, whose table is
--   Engine/PersistentList, Steps what a script does with objects, Steps/Alone and
--   Steps/Unshared what holds without persistent objects, Steps/Joins and Steps/Twice what two
--   persistent objects of the same arguments do to each other.
-- - Client: argument checks of src/bee.c. Key has pack_key, Iterator convert_iterator,
--   Iterator/Constants the constants that PHP_MINIT_FUNCTION registers, Update
--   bee_update_verify_op and bee_update_verify_args.
-- - Tests: instances of the parameters and runs of the theorems.
--
-- State and effects: a function that appends to a smart_string is an Action, from the buffer
-- before to the buffer after, and none is a write outside the block or another undefined step.
-- A function on a connection goes from the session before to a value and the session after, to
-- FAILURE and the session after, or to a crash, which is undefined behaviour; an exception that
-- is thrown is recorded in the session, since it does not leave the function. A pointer into a
-- message is the bytes from it to the message's end. PHP values are trees: a table that holds
-- itself by reference is not described, so the flag nApplyCount of a table is read but never
-- raised. In the wrapper of src/bee_tp.c a pointer is an address. A double is its bit pattern.
-- A number that the code puts through an int, as the count of bytes that beexll_stream_read2
-- returns, keeps that conversion. The module's state has the objects by their handles and the
-- connections by their addresses, so that two objects can share a connection and a pointer can
-- outlive it: a use of such a pointer is undefined behaviour.
--
-- Recursion and fuel: packing and measuring recurse on the value. The reading loop has the
-- number of bytes asked for as fuel, since a round reads a byte or ends. Unpacking has the
-- input's length plus one as fuel, one unit for each nested value, and a value takes a byte at
-- least, so that the fuel is enough on every input. The attempts to connect are counted by the
-- retry count and the replies of a login by the number of its requests, so that neither needs
-- fuel. The number of a port is printed with at most five digits, which is enough below 65536,
-- what the constructor demands.
--
-- Left out: the timeouts and two functions without a caller in src/bee_network.c, a request of
-- third_party/tp.h that outgrows its buffer, the comparisons that src/bee_schema.c gives to
-- third_party/mhash.h, the parsing of a method's arguments by PHP, the registration of the
-- class and of the settings with PHP, the release of memory other than that of connections and
-- tables of indexes, the pause between two attempts, and the texts of exceptions. The libraries
-- under src/third_party, PHP's streams, its persistent list and its allocator are parameters.
pub mod Prelude
pub mod Engine
pub mod Msgpack
pub mod Proto
pub mod Network
pub mod Schema
pub mod Client
pub mod Connection
pub mod Objects
mod Tests
