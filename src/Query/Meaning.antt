-- ===== src/Query/Meaning.antt =====
-- What a query says, read off its syntax tree and not its normal form.
mod EveryLeaf
mod Classical
mod Inversion
mod Whole
mod Polarity
mod Negation
unfoldable pub use EveryLeaf.*
unfoldable pub use Classical.*
unfoldable pub use Polarity.*
unfoldable pub use Negation.*
unfoldable pub use Whole.*
pub use Inversion.*
