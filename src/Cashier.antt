-- ===== src/Cashier.antt =====
-- cashier/: the policy layer, which decides about every order and signs the tickets.
pub mod Store
pub mod Policy
pub mod Scope
pub mod Engine
