-- ===== src/Shim/Stubs.antt =====
-- The functions that the extracted code may link to but must never call: the macro UNIMPLEMENTED of
-- stdlib/stdlib.c, stdlib/jemalloc.c and ututna/dummy.c. And the programs stdlib/stdlib_main.c and
-- stdlib/jemalloc_main.c, which make the linker keep the functions to be extracted.
use Prim.Native.String.{String}
use rebench.Base.{ℕ, ◌+◌, List, [], ◌∷◌, u32, M, exited, pure}

-- A line on stderr: the format and its argument.
abbrev pub Output : Type 0
Output = List (String × String)

pub data Library : Type 0 where
  stdlib jemalloc dummy : Library

abbrev pub message : Library → String
message stdlib = "[stdlib] unimplemented: %s\n"
message jemalloc = "[jemalloc] unimplemented: %s\n"
message dummy = "unimplemented: %s\n"

-- The functions that stdlib.c defines so.
unfoldable pub stdlib_stubs : List String
stdlib_stubs =
    "s_abort" ∷ "s_calloc" ∷ "s_fstat" ∷ "s_iswdigit" ∷ "s_lseek64" ∷ "s_nl_langinfo" ∷ "s_open"
    ∷ "s_read" ∷ "s_realloc" ∷ "s_strerror" ∷ "s_strnlen" ∷ "s_ungetc" ∷ "s_vsscanf" ∷ "s_vswscanf"
    ∷ "s_wcsnlen" ∷ "s_wcsrtombs" ∷ "s_wcstof" ∷ "s_wcstoumax" ∷ "s__Znam" ∷ "s___errno"
    ∷ "s___stack_chk_fail" ∷ "s_funlockfile" ∷ "s_isatty" ∷ "s_iswupper" ∷ "s_isxdigit"
    ∷ "s_mbrtowc" ∷ "s_memchr" ∷ "s_mmap" ∷ "s_pthread_mutex_lock" ∷ "s_rmdir" ∷ "s_setvbuf"
    ∷ "s_unlink" ∷ "s_wcslen" ∷ "s_wcstod" ∷ "s_wcstoimax" ∷ "s_wctob" ∷ "s_write"
    ∷ "s___ctype_get_mb_cur_max" ∷ "s_btowc" ∷ "s_close" ∷ "s_dup3" ∷ "s_fcntl" ∷ "s_flockfile"
    ∷ "s_getdelim" ∷ "s_getpagesize" ∷ "s_isalnum" ∷ "s_iswspace" ∷ "s_malloc" ∷ "s_munmap"
    ∷ "s_strtod" ∷ "s_strtold" ∷ "s_vasprintf" ∷ "s_vdprintf" ∷ "s_vswprintf" ∷ "s_iswalnum"
    ∷ "s_iswxdigit" ∷ "s_mbrlen" ∷ "s_pthread_mutex_unlock" ∷ "s_strtof" ∷ "s_wcrtomb" ∷ "s_wcstold"
    ∷ []

unfoldable pub jemalloc_stubs : List String
jemalloc_stubs = "s_write" ∷ "s_abort" ∷ "s___errno" ∷ "s_strerror_r" ∷ "s___stack_chk_fail" ∷ []

unfoldable pub dummy_stubs : List String
dummy_stubs =
    "o_unimplemented" ∷ "o_fwrite" ∷ "o_exit" ∷ "o_abort" ∷ "o___stack_chk_fail"
    ∷ "o___sfp_handle_exceptions" ∷ "o___cxa_begin_catch" ∷ "o___cxa_end_catch" ∷ "o___cxa_rethrow"
    ∷ "o__Unwind_Resume" ∷ []

-- The body that UNIMPLEMENTED gives a function.
unfoldable pub unimplemented : Library → String → M Output (Unit {0})
unimplemented library name out = exited ((message library, name) ∷ out)

-- o_setjmp of dummy.c: there is no way back.
unfoldable pub o_setjmp : M Output ℕ
o_setjmp = pure 0

-- The functions that stdlib_main.c and jemalloc_main.c call, in order.
unfoldable pub stdlib_exports : List String
stdlib_exports =
    "memset" ∷ "memcpy" ∷ "memcmp" ∷ "memmove" ∷ "strncmp" ∷ "strcmp" ∷ "strchr" ∷ "strlen"
    ∷ "strtol" ∷ "sin" ∷ "cos" ∷ "pow" ∷ "sqrt" ∷ "sprintf" ∷ "fprintf" ∷ "fputc" ∷ "crc32"
    ∷ "inflate" ∷ "inflateEnd" ∷ "inflateInit_" ∷ "inflateReset" ∷ []

unfoldable pub jemalloc_exports : List String
jemalloc_exports = "je_malloc" ∷ "je_calloc" ∷ "je_realloc" ∷ "je_free" ∷ []

-- ret += f(ret) for each function, on a 32-bit `int`.
unfoldable pub add_calls : (String → ℕ → ℕ) → List String → ℕ → ℕ
add_calls f [] ret = ret
add_calls f (name ∷ names) ret = add_calls f names (u32 (ret + f name ret))

unfoldable pub stdlib_main : (String → ℕ → ℕ) → ℕ → ℕ
unfolding add_calls stdlib_exports
stdlib_main f argc = add_calls f stdlib_exports argc

unfoldable pub jemalloc_main : (String → ℕ → ℕ) → ℕ → ℕ
unfolding add_calls jemalloc_exports
jemalloc_main f argc = add_calls f jemalloc_exports argc
