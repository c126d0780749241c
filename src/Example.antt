-- ===== src/Example.antt =====
-- Concrete instances of the interfaces, and the theorems at concrete inputs.
pub mod Solver
pub mod Cases
pub mod Heap
pub mod Modules
pub mod Words
pub mod Floats
pub mod Constants
pub mod Sums
pub mod Tensors
pub mod Steps
pub mod Views
pub mod Parts
