-- ===== src/Shim.antt =====
-- stdlib/: the layer that binds the two extracted libraries, jemalloc and a part of bionic, to the
-- program, and ututna/dummy.c, which does so for the extracted benchmark.
pub mod Thread
pub mod Calloc
pub mod Stubs
pub mod SelfTest
pub mod Mmap
