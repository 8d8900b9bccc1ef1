-- ===== src/Ingress.antt =====
-- public-ingress.ts and ingress-body.ts: the handler of public requests.
pub mod Body
pub mod Handler
mod Tests
