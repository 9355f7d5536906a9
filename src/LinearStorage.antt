-- ===== src/LinearStorage.antt =====
-- LinearStorage.h, LinearStorage.cpp: the store of persistent messages. Tom is one file, Storage the
-- files of a destination and the index over them, Image what a file holds as a list of records,
-- Write and Remove what append and remove make of it, Sweep the scan in pieces, Scan and Torn what
-- the loops over a file find in it.
pub mod Tom
pub mod Storage
pub mod Sweep
pub mod Image
pub mod Write
pub mod Remove
pub mod Scan
pub mod Torn
pub mod Tests
