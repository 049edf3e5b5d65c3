-- ===== src/Reloc.antt =====
-- ututna/reloc.c: a position-dependent library is copied to its fixed address and its relocations are
-- applied. The build without SEMIHOSTING is modelled; `debug` prints nothing there.
pub mod Space
pub mod Load
pub mod Table
pub mod Align
pub mod Layout
pub mod Prepared
pub mod Pages
pub mod Semihosting
