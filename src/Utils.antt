-- ===== src/Utils.antt =====
-- src/rseq-utils.h: bit scans, orders, alignment.
mod Defs
mod Fls
mod Order
mod Align
mod Examples
unfoldable pub use Defs.*
pub use Fls.*
pub use Order.*
pub use Align.*
