-- ===== src/Os.antt =====
-- What ututna/main.c and ututna/perf.c call but do not define: the kernel, stdio, the allocator
-- behind `s_malloc`, and the benchmark kernels that ututna/*.s holds after the build.
-- A call is an event in a log, newest first, and its result is what the environment answers to the
-- log that ends in it, so an environment may answer each call in a different way.
pub mod Double
use Prim.Native.String.{String}
use rebench.Base.{ℕ, ℤ, Bool, Option, List}

-- PERF_TYPE_HARDWARE, PERF_TYPE_HW_CACHE and PERF_TYPE_RAW.
pub data PerfType : Type 0 where
  hardware hw_cache raw : PerfType

-- PERF_EVENT_IOC_ENABLE and PERF_EVENT_IOC_RESET, both with PERF_IOC_FLAG_GROUP.
pub data Request : Type 0 where
  enable reset : Request

-- An argument of `fprintf`.
pub data Arg (D : Type 0) : Type 0 where
  str : String → Arg D
  type_code : PerfType → Arg D
  chars : List ℕ → Arg D
  num : ℤ → Arg D
  word : ℕ → Arg D
  real : D → Arg D

-- The digests of 607_hash, in the order in which they are tried.
pub data Digest : Type 0 where
  md5 sha1 sha2 crc : Digest

pub data Event (D : Type 0) : Type 0 where
  -- fprintf(stderr, format, arguments)
  print : String → List (Arg D) → Event D
  -- perf_event_open(type, config, group_fd)
  event_open : PerfType → ℕ → ℤ → Event D
  ioctl : ℤ → Request → Event D
  -- read(fd, counters, words * 8)
  read_counters : ℤ → ℕ → Event D
  gettimeofday : Event D
  stopwatch_start stopwatch_stop : Event D
  malloc : ℕ → Event D
  free : ℕ → Event D
  kiss_fftr_alloc : ℕ → Event D
  kiss_fftr : ℕ → Event D
  test_sgemm test_dgemm : Event D
  -- The three pointers that are passed on.
  sgemm dgemm : ℕ → ℕ → ℕ → ℕ → Event D
  test_map : ℤ → Event D
  -- The two virtual functions of a map that the loop calls.
  map_test map_ops : ℕ → Event D
  load_png : Event D
  test_physics : D → Event D
  generate_data : ℕ → Event D
  digest : Digest → ℕ → Event D
  stdlib_test : Event D

abbrev pub History : Type 0 → Type 0
History D = List (Event D)

pub record Timeval : Type 0 where
  pub sec : ℕ
  pub usec : ℕ

-- What loadMemPNG gives back: its time, and the pointer that it stores, 0 for none.
pub record Decoded (D : Type 0) : Type 0 where
  pub seconds : D
  pub bitmap : ℕ

pub record Env (D : Type 0) : Type 0 where
  pub event_open_result : History D → ℤ
  -- The words that `read` stores, `none` where it fails.
  pub read_result : History D → Option (List ℕ)
  pub clock : History D → Timeval
  pub stopwatch_result : History D → ℕ
  -- 0 is NULL.
  pub malloc_result : History D → ℕ
  pub fft_plan : History D → ℕ
  -- The sizes that `test_sgemm` and `test_dgemm` ask `gemm_malloc` for, and their results.
  pub gemm_sizes : History D → List ℕ
  pub gemm_result : History D → D
  -- The maps that `test_map` hands to `test_const_time`, each with its time limit, and its result.
  pub map_runs : History D → List (ℕ × D)
  pub map_result : History D → D
  pub map_test_result : History D → Bool
  pub map_ops_result : History D → ℤ
  pub png_result : History D → Decoded D
  pub physics_result : History D → D
  pub data_result : History D → ℕ
  -- Whether a digest function returns something other than 0.
  pub digest_result : History D → Bool
