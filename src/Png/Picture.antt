-- ===== src/Png/Picture.antt =====
-- The array of ututna/test_png.c and its length, which main.c hands to the decoder.
use rebench.Base.{ℕ, ◌≡◌, refl, ◌∙◌, List, ◌++◌, length, length-append, arith}
use rebench.Png.Bytes.{bytes, bytes_of, length-bytes, length-bytes_of}
use rebench.Png.Rows01.{rows_01}
use rebench.Png.Rows02.{rows_02}
use rebench.Png.Rows03.{rows_03}
use rebench.Png.Rows04.{rows_04}
use rebench.Png.Rows05.{rows_05}
use rebench.Png.Rows06.{rows_06}
use rebench.Png.Rows07.{rows_07}
use rebench.Png.Rows08.{rows_08}
use rebench.Png.Rows09.{rows_09}
use rebench.Png.Rows10.{rows_10}
use rebench.Png.Rows11.{rows_11}
use rebench.Png.Rows12.{rows_12}
use rebench.Png.Rows13.{rows_13}
use rebench.Png.Rows14.{rows_14}
use rebench.Png.Rows15.{rows_15}
use rebench.Png.Rows16.{rows_16}
use rebench.Png.Rows17.{rows_17}
use rebench.Png.Rows18.{rows_18}
use rebench.Png.Rows19.{rows_19}
use rebench.Png.Rows20.{rows_20}
use rebench.Png.Rows21.{rows_21}
use rebench.Png.Rows22.{rows_22}
use rebench.Png.Rows23.{rows_23}
use rebench.Png.Rows24.{rows_24}
use rebench.Png.Rows25.{rows_25}
use rebench.Png.Rows26.{rows_26}
use rebench.Png.Rows27.{rows_27}
use rebench.Png.Rows28.{rows_28}
use rebench.Png.Rows29.{rows_29}

-- The rows of twelve bytes, all but the last of the array.
unfoldable pub rows : List ℕ
rows =
    rows_01 ++ rows_02 ++ rows_03 ++ rows_04 ++ rows_05 ++ rows_06 ++ rows_07 ++ rows_08 ++ rows_09
    ++ rows_10 ++ rows_11 ++ rows_12 ++ rows_13 ++ rows_14 ++ rows_15 ++ rows_16 ++ rows_17
    ++ rows_18 ++ rows_19 ++ rows_20 ++ rows_21 ++ rows_22 ++ rows_23 ++ rows_24 ++ rows_25
    ++ rows_26 ++ rows_27 ++ rows_28 ++ rows_29

unfoldable pub test_png : List ℕ
test_png = bytes_of rows ++ bytes 7 19507830281363586

abbrev pub test_png_len : ℕ
test_png_len = 51223

length-rows : length rows ≡ 4268
unfolding rows rows_01 rows_02 rows_03 rows_04 rows_05 rows_06 rows_07 rows_08 rows_09 rows_10
    rows_11 rows_12 rows_13 rows_14 rows_15 rows_16 rows_17 rows_18 rows_19 rows_20 rows_21 rows_22
    rows_23 rows_24 rows_25 rows_26 rows_27 rows_28 rows_29
length-rows = refl

-- The array is as long as the constant says.
length-test_png : length test_png ≡ test_png_len
unfolding test_png
length-test_png =
    length-append (bytes_of rows) (bytes 7 19507830281363586)
    ∙ omega (arith, length-bytes_of rows, length-rows, length-bytes 7 19507830281363586)
