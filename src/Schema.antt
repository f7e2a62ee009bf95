-- ===== src/Schema.antt =====
-- backend/prisma/schema.prisma: the enumerations, and the rows of the tables.
pub mod Enums
pub mod Entities
