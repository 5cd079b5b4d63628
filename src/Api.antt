-- ===== src/Api.antt =====
-- The custom resources of api/v1alpha1: the types that every other part reads and writes.
mod Meta
mod Requirement
mod Resources
mod Claim
mod Pool
mod Tunnels
pub use Meta.*
pub use Requirement.*
pub use Resources.*
pub use Claim.*
pub use Pool.*
pub use Tunnels.*
