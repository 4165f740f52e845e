-- ===== src/Types.antt =====
-- internal/supervisor/types.go: the durable data of the supervisor. Identities are texts, times are
-- nanoseconds since Go's zero time (0 is the zero time), and optional pointers are `Option`.
mod Enums
mod Specs
mod Records
mod Store
pub use Enums.*
pub use Specs.*
pub use Records.*
pub use Store.*
unfoldable pub use Store.{empty_state}
