-- ===== src/HeapHelp/Reporting/Freed.antt =====
-- The report of a program that frees what it allocates.
