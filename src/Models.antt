-- ===== src/Models.antt =====
-- models.py: the rows of the tables that the incident workflow reads and writes. Primary keys are
-- UUIDs, which the program only compares: they are numbers here. A moment is a number of seconds,
-- a date a number of days. Text, photos and other fields that no operation tests are left out.
mod Choices
mod Rows
mod Leader
unfoldable pub use Choices.*
unfoldable pub use Rows.*
unfoldable pub use Leader.*
