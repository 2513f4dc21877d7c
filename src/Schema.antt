-- ===== src/Schema.antt =====
-- prisma/schema.prisma: the enums, the rows and the tables that the code under src/ reads and
-- writes.
mod Enums
mod Sales
mod Raffles
mod Stores
mod Events
mod Database
pub use Enums.*
pub use Sales.*
pub use Raffles.*
pub use Stores.*
pub use Events.*
unfoldable pub use Database.*
