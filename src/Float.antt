-- ===== src/Float.antt =====
-- Python's `float`: the operations that the code uses, as an interface, and the three groups of laws
-- that theorems ask for. `Ops` holds its own section parameter's notation; `Ints` is an instance.
mod Ops
mod Laws
pub mod Bounds
pub mod Ints
unfoldable pub use Ops.{min, max, abs, sum_from}
pub use Ops.*
pub use Laws.*
