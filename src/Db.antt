-- ===== src/Db.antt =====
-- The database: prisma/schema.prisma. Each table is a list of rows, the row that was created last
-- first. Ids are UUIDs that the code only compares, times are milliseconds, and stored amounts
-- of money are whole cents.
mod Enums
mod Rows
pub mod Decimals
pub use Enums.*
pub use Rows.*
