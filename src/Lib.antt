-- ===== src/Lib.antt =====
-- mlir-tv checks that one MLIR program refines another. It encodes both functions as SMT terms,
-- the memory and the registers being part of a state, and asks a solver whether the target can do
-- what the source does not allow.
--
-- The parts and their files:
--   * src/smt.cpp and src/smtmatchers.h, class `smt::Expr`: Smt/Terms is the interface of the solver
--     (z3 or cvc5, not part of the repository) with the laws that its documentation states;
--     Smt/Match the matchers, of which cvc5's count the arguments of an application and z3's do not
--     (`counts_args`); Smt/Logic the Boolean operations and `mkIte`; Smt/Arith `extract`,
--     `concat`, `zext`, `urem`, `udiv` and `log2_ceil` of src/utils.h; Smt/Compare `operator==`, `ult`
--     and `ule`; Smt/Words `operator+`, `operator-`, `operator*` and `mkAddNoOverflow`;
--     Smt/Index the index arithmetic of arrays with several dimensions, with its numbers in
--     Smt/Index/Digits.
--     Each operation of the source folds constants and simplifies before it builds a term.
--   * src/state.h and src/state.cpp: State, and State/Registers for `RegFile`.
--   * src/memory.h and src/memory.cpp: Memory, with Memory/Number for the bits that a block's number
--     takes. An element type has its vectors of blocks; a block's number may be a term, so reads and
--     writes go through `itebid` and `update` (Memory/Pick), and are compared with a heap
--     (Memory/Heap). Memory/Arrays has the accesses of several elements and the refinement of two
--     memories; Memory/Steps takes the operations as steps.
--   * src/value.h and src/value.cpp, class `Tensor`: Tensor has the constructors, the accesses and
--     `mkLambda`, Tensor/Shape the operations that move elements (`insert`, `affine`, `concat`,
--     `reverse`, `tile`, `transpose`, `reshape`, `mkIte`, `to1DArrayWithOfs`), the elementwise ones and
--     `refines`. An element is an entry of an array at its offset in row-major order; a tensor made by
--     `mkLambda` is a lambda over the offset, in whose body the index variables are replaced by the
--     digits of the offset (Tensor/Lambda, Tensor/Vars). Tensor/Reduce has the dot products, sums and
--     pools, Tensor/Convolve and Tensor/Depthwise the convolutions, over the abstract operations as
--     parameters, and Tensor/Windows is about their sizes;
--     Tensor/Attributes has the part of `fromElemsAttr` that finds the tensor of a large constant.
--     Class `MemRef`: MemRef has the layouts and the accesses to a block of the memory, MemRef/View
--     `subview`; MemRef/Access compares the accesses with the heap, MemRef/Alias is about `noalias`.
--   * src/vcgen.h and src/vcgen.cpp: Validate/Results, Validate/Check for `checkRefinement`,
--     whose solver is the list of the formulas that were added to it and is not reset between the
--     element types (Validate/Check/Memories),
--     Validate/Loop for the loop of `validate` over the abstractions of src/abstractops.h,
--     Validate/Modules for `validate` of two modules and `mergeGlobals`.
--   * src/abstractops.h and src/abstractops.cpp, class `AbsFpEncoding`: Floats has the encoding,
--     a sign and a magnitude that is a rank, and its tests; Floats/Arith the operations on
--     numbers, Floats/Compare the comparisons, Floats/Cast the casts, Floats/Arrays the sums,
--     dot products and maxima, Floats/Ints those of integers. Floats/Constants has
--     `addConstants` and Floats/Setup `setAbstraction`, which chooses the bits;
--     Floats/Preconditions what the queries assume of the encodings. Floats/Ieee states the special
--     cases of the standard's sum; Floats/Bits, Floats/Signed, Floats/Add, Floats/Sum and
--     Floats/Sum/Called compare `add`, where it does not go through `sum`, with them, and
--     Floats/Compare/Order compares `cmp` with the order of the numbers. What an operation leaves open
--     is an uninterpreted function of the solver, which gives equal results on equal arguments.
--   * Example/Solver is a solver that meets the interface; the other files of Example apply the
--     theorems to it.
--
-- How the code is read. A `uint64_t` is a number below 2 ^ 64, and wraps there. An `Expr` is the term
-- of the solver in use; where the source keeps one for each solver it treats both alike. A term's
-- meaning is at a valuation of its variables: a number, a truth value, or an array of either.
-- An `abort()`, an exception and most failed assertions are `none` or a constructor of their own; the
-- assertions of `itebid` and `update` on the block's number, and those on the sorts of terms, are not
-- part of the functions, and are hypotheses of the theorems where they matter.
-- The theorems on terms suppose that z3's matchers meet no application with three or more arguments,
-- which its `simplify` can make; they suppose nothing of the kind for cvc5's.
--
-- Widths. The width of an index, an option of the command line, is a parameter; the theorems on
-- indices and tensors take it to be at most 32, the program's own choice, so that the shortcuts of
-- `urem` and `udiv` at constants are right (`log2_ceil` shifts an `int`).
--
-- Fuel. The loop over abstractions has fuel 6: an abstraction has at most four levels to refine, and
-- one round looks at the empty queue. `operator==` and `ult` call themselves on parts of a
-- concatenation with the width of the left side as fuel, since a part is narrower than the whole; at
-- no fuel they build the plain term. `log2_ceil` has the 64 rounds of its loop, and `ulog2` as many as
-- its number, which it takes modulo 2 ^ 32.
--
-- Not modelled: the encodings of single operations (src/encode.cpp), how `fromElemsAttr` reads the
-- elements of an attribute (src/value.cpp), the precondition of sums over the solver's bags and
-- the evaluation of constants (src/abstractops.cpp), the analysis of the program
-- (src/analysis.cpp), which walk over MLIR's own data structures; printing, options and files;
-- floats and bags in src/smt.cpp; the constructor of the memory, which makes fresh variables.
pub mod Base
pub mod Smt
pub mod State
pub mod Validate
pub mod Floats
pub mod Memory
pub mod Tensor
pub mod MemRef
pub mod Example
