-- ===== src/Orm.antt =====
-- A table is the list of its rows, in the order of the primary key; a queryset call is read as the
-- operation on that list that Django documents for it.
mod Query
mod Rows
mod Find
mod Count
mod Replace
pub use Query.{find, exists, filter, update, count, length}
pub use Rows.{All, All-update, All-filter, All-append, All-find, All-each}
pub use Find.*
pub use Count.*
pub use Replace.*
