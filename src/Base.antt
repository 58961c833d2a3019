-- ===== src/Base.antt =====
-- What the modules share: names of the libraries, Boolean tests, lists and byte strings over the
-- native numbers, signed integers, and total comparisons.
pub mod Tests
pub mod Lists
pub mod Int
pub mod Order
pub mod ByteStrings
pub mod Words
pub mod Maps
pub mod Sorting
unfoldable pub use Tests.*
unfoldable pub use Lists.*
unfoldable pub use Int.*
unfoldable pub use Order.*
unfoldable pub use Maps.*
unfoldable pub use Words.*
unfoldable pub use ByteStrings.*
unfoldable pub use Sorting.*
