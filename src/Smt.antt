-- ===== src/Smt.antt =====
-- src/smt.h, src/smt.cpp: the class `Expr` and what it needs of the SMT solver.
pub mod Terms
pub mod Match
pub mod Same
pub mod Logic
pub mod Arith
pub mod Compare
pub mod Words
pub mod Index
