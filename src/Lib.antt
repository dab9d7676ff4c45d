-- ===== src/Lib.antt =====
-- Ganymede finds byte patterns and modules in the memory of processes. This library models the crate
-- ganymede-pattern-core, on which the searches of the other crates stand, and of these the scanner of
-- ganymede-scan, the mappings of ganymede-process, the modules of ganymede-module, the paths of
-- ganymede-text, the tables of ganymede-elf and the retries of ganymede-linker-gnu.
--
-- A pattern is a program of atoms (`Atom`, ganymede-pattern-core/src/pattern.rs). The parser
-- (pattern/syntax.rs) compiles a source to one; `FixedBuf::compile` (pattern/fixed.rs) projects a
-- linear program on bytes and masks; `SearchPlan::compile` (pattern/fixed/plan.rs) picks a search
-- strategy for these. The scanner (pattern/scan.rs) finds candidates, by the fixed projection
-- (pattern/fixed/scan.rs and scan/vector.rs), by the exact prefix of the program or by trying each
-- position, and runs the program at each candidate.
--
-- A snapshot (ganymede-process/src/snapshot.rs) holds the validated mappings of a process. Modules
-- (ganymede-module/src/lib.rs) are built from its regions and named by paths (ganymede-text/src/lib.rs).
-- ganymede-elf/src reads the program headers, notes, symbols and hash tables of a module, and
-- ganymede-scan/src/lib.rs copies foreign memory window by window and finds a needle in it.
--
-- The files, below verification/, and what they model:
--   Common, Common/*      sequences indexed by native numbers, 64-bit checked arithmetic, code that
--                         may panic, results, sorting, and the least position at which a test holds
--   Pattern/Atom          PointerWidth, Atom and Pattern::capture_len; Slots has its theorem
--   Pattern/Read          the little-endian reads, displacements and address conversions of scan.rs
--   Pattern/Exec          Exec and Scanner::run with all it calls; Total has the theorems
--   Pattern/Plan          SearchPlan and the probes; theorems in Plan/Probes and Plan/Valid
--   Pattern/Fixed         Fixed and FixedBuf; theorems in Fixed/Run and Fixed/Compile
--   Pattern/Vector, Pattern/FixedScan   the scanner of the fixed projection; theorems in
--                         FixedScan/Occurs, Masks and Exact
--   Pattern/Compiled      Pattern, PatternBuf and the slices that the macro emits; theorem in
--                         Compiled/Static
--   Pattern/Search        Scanner and Matches; theorems in Search/Filter, Prefix,
--                         First, Projected and Answers
--   Pattern/Syntax, Pattern/Syntax/Lower, Pattern/Syntax/Grammar   the parser; theorems in Syntax/Fits,
--                         Total, Ends, Operation and Sequence
--   Process/Snapshot      Process::snapshot and the lookups of Snapshot; theorems in Regions and Lookup
--   Text                  BytePath::basename and MaybeAscii; theorem in Basename
--   Module                Module and Modules; theorems in Apart, Identity, Mappings, Ownership, Distinct
--                         and Lookup
--   Scan/Foreign          Bytes and CBytes; theorems in Scan/Assembly and Scan/Strings
--   Scan/Scanner          Scanner; theorems in Scan/Matches, Copies, Windows and Report
--   Elf                   ElfClass and LoadBias
--   Elf/Loaded            LoadedImage; theorems in Loaded/Segments and Loaded/Pointers
--   Elf/Symbol            Symbol and Export; theorems in Symbol/Fields and Symbol/Exports
--   Elf/Note              Notes; theorems in Note/Alignment, Fields, Records, Encoding and Segment
--   Elf/Dynamic           the lookups of DynamicSymbols; theorems in Dynamic/Links, Chain and Sysv
--   Linker/Retry          Retry::run
--   Pattern/Naive, Scan/Naive, */Tests   concrete instances of the interfaces and concrete runs
--
-- State. The interpreter's branch state `Exec` is its cursor and program counter; the capture slots
-- `&mut [u64]` are a list that every function takes and returns; a slot outside the list is ignored,
-- as in `Scanner::write`. What no branch changes stands in `Context`. A parser state is an offset
-- and the next slot, and the source is an argument. A loop over foreign memory passes on its offset and
-- the bytes or matches so far; the notes iterator passes on its offset; an attempt of a retry passes on
-- a state of its own. `usize` and `u64` are numbers below 2 ^ 64 with the source's checked and
-- saturating operations; a `u8` is a number whose range is a hypothesis where a theorem needs it; a word
-- of an ELF class is bounded by 2 to the number of its bits.
--
-- Fuel. `run` takes a round for each atom on a branch, so one round more than there are atoms is
-- enough. A candidate loop takes a round for each position. The parser takes a round for each byte
-- and one more. A loop over foreign memory, over the windows of a range or over the notes of a segment
-- takes at most a round for each byte and one more, and a GNU hash chain a round for each chain word and
-- one more; the walk of a System V chain and the retries count the source's own steps.
--
-- Third-party code is a parameter: `Memchr` and `Memmem` are what is used of the crate memchr, with the
-- law that a search returns the first occurrence, or all of them without overlaps; `Simd` is what is used
-- of fearless_simd, with the law that its operations work lane by lane; `Foreign` and `Process` are what
-- is used of catalejo's handles, with the law that a copy reads the memory in order; `RangeOrder` is the
-- order of its ranges, and the size of a range is an argument. `Binding` has the constants and record
-- sizes that the build generates. `Memory` has the reads of words, records and names by which the hash
-- tables are followed.
--
-- Not modelled: the discovery of images through the auxiliary vector and the lists of the linker, which
-- read one record after the other from foreign memory and are left for later, with the acquisition of
-- headers, notes, dynamic tables and names; text output of errors, accessors, UTF-8 views, and the
-- procedural macro, which prints a parsed pattern, but for the choice of its slices. The anchor and
-- probe strategies, searches with capture slots, the class of a snapshot, and the bloom filter and
-- buckets of a GNU hash table are modelled only.
pub mod Common
pub mod Pattern
pub mod Process
pub mod Text
pub mod Module
pub mod Scan
pub mod Elf
pub mod Linker
