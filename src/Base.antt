-- ===== src/Base.antt =====
-- The names that the other modules share: library names passed on, Boolean tests, and the list,
-- sorting, text and dictionary helpers that stand for what the source takes from Python.
pub mod Core
pub mod Lists
pub mod Sort
pub mod Strings
pub mod Dicts
pub mod Texts
pub mod Laws
pub mod Counting
pub mod Groups
pub mod Accounts
pub use Core.*
unfoldable pub use Lists.*
unfoldable pub use Sort.*
unfoldable pub use Strings.*
unfoldable pub use Dicts.*
pub use Texts.*
pub use Laws.*
pub use Counting.*
pub use Groups.*
unfoldable pub use Accounts.*
