-- ===== src/Consumer.antt =====
-- consumer/: the personal-permission gate that a consumer app puts between the cashier's verdict
-- and the chef.
pub mod Preferences
pub mod Place
