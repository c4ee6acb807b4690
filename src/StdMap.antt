-- ===== src/StdMap.antt =====
-- `std::map<std::string, V>` as the program uses it: keys are byte strings in the order of
-- `std::string::operator<`, the entries are kept in that order, and `m[k]` inserts a default.
pub mod Key
mod Ops
mod Laws
pub use Laws.*
unfoldable pub use Ops.{Map, find, update, map_values}
