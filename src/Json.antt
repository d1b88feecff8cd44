-- ===== src/Json.antt =====
-- JSON values as Python's `json` reads and writes them: a dict keeps its insertion order.
mod Dict
pub mod Sort
pub mod Truth
pub use Dict.*
use tanaka.Prelude.{String, Bool, ℤ}
