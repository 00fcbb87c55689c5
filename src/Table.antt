-- ===== src/Table.antt =====
-- The hash tables that the servers keep their entries in (struct htable of src/ccan/htable, a
-- library of its own). A table is seen as the list of its entries, in the order in which
-- htable_first and htable_next go through them; what the library does is a parameter, `Htable`.
mod Laws
mod Interface
mod Plain
mod Single
mod Chains
pub use Laws.*
unfoldable pub use Laws.{find, count, modify, sweep}
pub use Interface.*
pub use Plain.*
pub use Single.*
pub use Chains.*
unfoldable pub use Chains.{position}
