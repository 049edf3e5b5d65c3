-- ===== src/Png.antt =====
-- ututna/test_png.c: the picture that the PNG benchmark decodes, and how its bytes are written here.
pub mod Bytes
pub mod Rows01
pub mod Rows02
pub mod Rows03
pub mod Rows04
pub mod Rows05
pub mod Rows06
pub mod Rows07
pub mod Rows08
pub mod Rows09
pub mod Rows10
pub mod Rows11
pub mod Rows12
pub mod Rows13
pub mod Rows14
pub mod Rows15
pub mod Rows16
pub mod Rows17
pub mod Rows18
pub mod Rows19
pub mod Rows20
pub mod Rows21
pub mod Rows22
pub mod Rows23
pub mod Rows24
pub mod Rows25
pub mod Rows26
pub mod Rows27
pub mod Rows28
pub mod Rows29
pub mod Picture
