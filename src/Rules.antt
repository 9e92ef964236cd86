-- ===== src/Rules.antt =====
-- crates/budu-rules: the rule engine.
pub mod Model
pub mod Args
pub mod Match
pub mod Eval
pub mod Error
pub mod Condition
pub mod Compile
pub mod Stage
pub mod Modsec
