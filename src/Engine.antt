-- ===== src/Engine.antt =====
-- The PHP engine as the extension sees it, and the interfaces of the libraries that it calls.
pub mod Zval
pub mod HashTable
pub mod SmartString
pub mod MsgPuck
pub mod MHash
pub mod Php
pub mod PersistentList
pub mod PhpStream
pub mod Streams
pub mod Tp
pub mod Outcome
