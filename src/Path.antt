-- ===== src/Path.antt =====
-- What the router reads from a public path: percent decoding, the scanner and traversal filters,
-- route identifiers, and the remaining paths that operators register.
pub mod Uri
pub mod RouteId
pub mod Links
pub mod Scanner
pub mod Ingress
pub mod Remaining
pub mod Traversal
mod Tests
