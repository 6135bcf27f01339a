-- ===== src/Finance.antt =====
-- backend/app/modules/finance: tariffs, charges, payments and adjustments.
pub mod Night
pub mod Tariff
pub mod Charges
