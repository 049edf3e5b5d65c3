-- ===== src/Lib.antt =====
-- Verification of rebench, which runs the benchmarks of Antutu outside their app: ututna/ is the
-- program, stdlib/ the layer that gives its extracted code an allocator and a part of the C library.
--
-- How the parts work together. `main` (ututna/main.c) hands its options to `perf_config`
-- (ututna/perf.c), which opens hardware counters as one group, and then runs the benchmarks that the
-- command line chooses. Each benchmark calls its kernel in a loop between `begin` and `end`, which read
-- the clock and the counters, and prints a line with `print_score`, which prints the counters too. The
-- kernels are extracted machine code. Two more extracted libraries, jemalloc and a part of bionic, are
-- put at fixed addresses by `reloc` (ututna/reloc.c), on top of stdlib/jemalloc.c and stdlib/stdlib.c.
--
-- Files:
--   Base    tests on numbers, lists as arrays, signed and machine integers, and runs (Base/Exec): a
--           run is done, has exited, or has met a fault, which is undefined behaviour of the C code.
--           Base/Progress: where runs exit.
--   Os      what the program calls but does not define. A call is an event in a log; an environment
--           `Env` answers each call as it likes, depending on all calls so far. Os/Double: the
--           arithmetic of `double`, over any type.
--   Perf    ututna/perf.c. Perf/State: its variables; Perf/Config: `perf_open`, `perf_config`;
--           Perf/Measure: the other functions; Perf/Text: the conversions of `sprintf`.
--           Perf/Bounds: what `perf_config` writes to; Perf/Group: the group of counters;
--           Perf/Overrun: what `read` stores; Perf/Print: what is printed; Perf/Labels: the names of
--           counters; Perf/Session: a measurement from end to end; Perf/Progress: what it
--           leaves alone, and where it exits;
--           Perf/Table: the table of counters that options ask for, their column heads, and the widths
--           of the formats below them.
--   Main    ututna/main.c. Main/State: its variables, `begin`, `end`, `print_score`; Main/Gemm,
--           Main/Kernels, Main/Hash: the benchmarks; Main/Program: `main`. Main/Safety: where it faults;
--           Main/Carried: what a benchmark leaves alone; Main/Progress: where it exits; Main/Report:
--           the lines it prints; Main/Memory: the memory it gets and frees; Main/Columns,
--           Main/Grouping, Main/Dispatch, Main/HashScore and Main/Clock: what its parts do; Main/Ranges:
--           what it relies on where C leaves an operation undefined.
--   Reloc   ututna/reloc.c. Reloc/Space: bytes and which of them may be written; Reloc/Load: `do_reloc`
--           and `reloc`; Reloc/Semihosting: `reloc` as it is built for semihosting; Reloc/Layout: what
--           is expected of a library in memory; Reloc/Align, Reloc/Table, Reloc/Prepared and
--           Reloc/Pages: what the functions leave in memory.
--   Png     ututna/test_png.c, its bytes in Png/Rows01 to Png/Rows29 and Png/Picture.
--   Boot    ututna/bootstrap.c: the allocator for the start and the end of the heap; Boot/Libraries:
--           `bootstrap` as it is built for Android, with the `..._init` functions that the script
--           stdlib/stdlib writes; Boot/Semihosting: `bootstrap` as it is built for semihosting.
--   Shim    stdlib/jemalloc.c (Shim/Thread, Shim/Calloc, and Shim/Mmap for its pages in the build for
--           semihosting), stdlib/stdlib.c, ututna/dummy.c, stdlib/stdlib_main.c and
--           stdlib/jemalloc_main.c (Shim/Stubs), stdlib/stdlib_test.c (Shim/SelfTest).
--   Examples  the theorems at concrete inputs.
--
-- How the C code is modelled. A function is a state-passing function on a record of the file-level
-- variables, and its loops recur on the number of rounds that are left, so no fuel is needed. Arrays
-- are lists, and a write or read out of bounds is a fault. So is a `double` whose conversion to
-- `int` is undefined (`to_int` of Os/Double then gives nothing), and an overflow of `int` or `long`,
-- where the code multiplies loops or the operations of a map, or takes the difference of two clock
-- readings (`elapsed_usec`). The script ututna/ututna redirects two calls inside the extracted
-- `test_physics` to `s_StartStopwatch` and `s_StopStopwatch`; `run_physics` of Main/Kernels makes
-- them, in that order and once each. `exit` ends a run for good. Numbers are naturals, with `% 2 ^
-- 64` and `% 2 ^ 32` written out. A file descriptor below 0 is a failed call. Memory in Reloc and
-- Shim/Calloc is a function from addresses to bytes.
--
-- Parameters. The kernels, the kernel calls, the clock, the allocator and the arithmetic of doubles
-- are arguments. What a theorem relies on is a hypothesis: `ReadsAtMost` (`read` stores no more than
-- it is asked for), `MapsTwice` (`test_map` measures at most two maps), `FitsInt` (the loops times
-- ten fit an `int`), `OpensAll` (the system opens every counter), `KeepsRanges` (the conversion of a
-- `double` to an `int` gives an `int`, as where the target's saturates; the operations of a map test
-- times its rounds fit a `long`; the clock stays below 9223372036854 seconds, with less than a
-- million microseconds), `AllocatesFew` (a kernel's test asks for at most three matrices),
-- `Allocates` (a block of jemalloc can be written, and is zero below 20480 bytes), `IsBuilt` (the
-- build made a library for its address), `MapsBoth` (the kernel maps the libraries where they
-- belong), `IsFresh` (memory that holds zeros and can be written), `IsMemset` and `IsSbrk` (what the
-- C library documents).
--
-- Not modelled: the fields of `perf_event_attr` that are the same for every counter; the scripts,
-- which extract and rewrite assembly at build time, except for the functions that stdlib/stdlib writes;
-- the assembly files and the tables in .inc files, which only name symbols and data; the debug output;
-- what semihosting changes in ututna/main.c, whose `main` does not link there; the build of `s_mmap`,
-- `s_munmap` and `s_madvise` that forwards to the kernel. `main` begins behind its call of `bootstrap`,
-- which has its own model. The loops of the extracted kernels are not known, so nothing is said of
-- their results.
pub mod Base
pub mod Os
pub mod Perf
pub mod Main
pub mod Reloc
pub mod Png
pub mod Boot
pub mod Shim
pub mod Examples
