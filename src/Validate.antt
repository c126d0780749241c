-- ===== src/Validate.antt =====
-- src/vcgen.h, src/vcgen.cpp: the checks of a pair of functions and the loop over abstractions.
pub mod Results
pub mod Check
pub mod Loop
pub mod Modules
