-- ===== src/Schemas.antt =====
-- The closed vocabularies of libraries/schemas, and the records of the portfolio path.
pub mod Enums
pub mod Portfolio
