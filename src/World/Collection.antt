-- ===== src/World/Collection.antt =====
-- A collection of the database as the services see it (`Model` of the package mongoose).
mod Laws
mod Memory
pub use Laws.{Updated, changed, inserted, missed, UpdatedAll, done, next, Collection}
unfoldable pub use Memory.{memory}
