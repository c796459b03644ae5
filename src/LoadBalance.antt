-- ===== src/LoadBalance.antt =====
-- The load balancer (src/load_balance, include/fluidloom/load_balance).
pub mod Migration
pub mod Balancer
