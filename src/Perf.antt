-- ===== src/Perf.antt =====
-- ututna/perf.c: the hardware counters of a benchmark run.
-- State: the file-level variables. `fd` is -1 or the group leader; `headers` is the text in the
-- buffer without its final NUL; `log` holds the calls made so far (Os), and is kept here since
-- perf.c and main.c both add to it.
pub mod Text
pub mod State
pub mod Config
pub mod Measure
pub mod Bounds
pub mod Group
pub mod Overrun
pub mod Print
pub mod Progress
pub mod Labels
pub mod Session
pub mod Table
