-- ===== src/Rules/Modsec.antt =====
-- crates/budu-rules/src/modsec.rs: the converter of ModSecurity rules.
pub mod Tokens
pub mod Mapping
pub mod Convert
pub mod Report
pub mod Known
pub mod Emitted
pub mod Members
pub mod Reports
pub mod Importable
pub mod Imports
pub mod Quoting
