-- ===== src/Str.antt =====
-- The kernel's string library, lib/string.c. A C function that writes through its pointers takes
-- the memory and returns its result beside the new one. Pointers are not wrapped: in C an object
-- does not reach round the end of the address space.
pub mod Blocks
pub mod Chars
pub mod Numbers
