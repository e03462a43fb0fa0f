-- ===== src/Material.antt =====
-- The flow of material: services/central-api/app/repositories/material_flow.py on the tables of
-- services/central-api/app/core/phase4_schema.py. Model has the tables, Access the look-ups and
-- checks, Balances the change of a balance.
pub mod Model
pub mod Access
pub mod Balances
pub mod Postings
pub mod Movements
pub mod Reads
pub mod Genealogy
pub mod Views
pub mod Transformations
pub mod Reconciliation
pub mod Adjustments
pub mod Catalog
pub mod Ledger
pub mod Samples
mod Tests
