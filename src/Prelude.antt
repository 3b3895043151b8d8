-- ===== src/Prelude.antt =====
-- The names that the other modules share: the libraries', passed on, and those of the children.
mod Names
mod Tests
mod Lists
mod Takes
mod Elements
mod Ints
mod Text
mod Results
pub use Names.*
pub use Tests.*
pub use Lists.*
pub use Takes.*
pub use Elements.*
pub use Results.*
unfoldable pub use Ints.*
unfoldable pub use Text.*
