-- ===== src/Domain.antt =====
-- The database that the backend keeps: the enumerations and the tables of
-- backend/prisma/schema.prisma, with the columns that the modelled code reads or writes.
pub mod Status
pub mod Failure
pub mod Laws
mod Tables
unfoldable pub use Tables.*
