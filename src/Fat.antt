-- ===== src/Fat.antt =====
-- The FAT entry operations, src/fatent_ops.c and include/fatent_ops.h: one table of functions for
-- each width of FAT, behind one record.
pub mod Entry
