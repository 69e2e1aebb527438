-- ===== src/Db.antt =====
-- The tables of bbs/db that the program's own logic reads and writes.
pub mod Users
