-- ===== src/Files.antt =====
-- What the program uses of `std::path`, as a Unix host has it.
pub mod FilePath
