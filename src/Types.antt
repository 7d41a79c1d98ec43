-- ===== src/Types.antt =====
-- src/types.rs: the types of the C ABI, in four children whose names this module passes on.
mod Status
mod Structs
unfoldable pub use Status.*
unfoldable pub use Structs.*
