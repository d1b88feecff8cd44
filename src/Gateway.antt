-- ===== src/Gateway.antt =====
-- gateway.py: orders as JSON, strictly parsed, and the receipts of what cannot be parsed.
pub mod Parse
pub mod Place
