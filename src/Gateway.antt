-- ===== src/Gateway.antt =====
-- gateway/auth.py: what decides whether a remote client of the queue may act. A dictionary from
-- identities to buckets is a list of pairs.
pub mod Tokens
pub mod Limits
pub mod Gates
