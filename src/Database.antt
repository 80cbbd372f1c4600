-- ===== src/Database.antt =====
-- The SQLite database behind server/dbmanager.cpp: the tables, the SQL statements of that file and
-- what SQL gives them to mean, the engine that carries them out, and an engine that shows that the
-- assumptions on it can be met.
pub mod Literals
pub mod Schema
pub mod Statements
pub mod Engine
pub mod Reference
