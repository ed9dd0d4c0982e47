-- ===== src/Engines.antt =====
-- The pure engines of packages/core/src/engines on complaints, roads and budgets, with the working
-- days of packages/core/src/utils/datetime.ts.
pub mod Dates
pub mod Complaints
pub mod Roads
pub mod Budget
mod Tests
