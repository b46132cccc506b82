-- ===== src/Python.antt =====
-- The built-in types of Python that the domains use: text, integers, UUIDs, datetimes, sorting.
pub mod Text
pub mod Scalars
pub mod Sorting
