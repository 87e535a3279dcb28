-- ===== src/Util/Digest.antt =====
-- pkg/util/digest.go: digests, their validation and their keys. The proofs are in the modules below.
-- Texts are lists of bytes. What ends in log.Fatal is `none`.
mod Defs
pub mod Validation
pub mod Keys
pub mod Generator
unfoldable pub use Defs.*
