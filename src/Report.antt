-- ===== src/Report.antt =====
-- tools/roofline/src/report.cpp.
pub mod Structs
pub mod WriteJson
pub mod Document
pub mod WriteJsonLaws
pub mod Valid
pub mod Print
pub mod WriteHuman
pub mod WriteGuidance
pub mod Says
pub mod Inline
pub mod Guidance
pub mod HumanLines
pub mod Human
