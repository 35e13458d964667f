-- ===== src/LogStream/Tests.antt =====
-- Text at concrete inputs.
use my_cisdi_code.Prelude.{
  Bytes, List, [], arith, codes, length, negsuc, none, ok, pos, refl, some, ◌<◌, ◌∷◌, ◌≡◌, ◌≤◌,
}
use my_cisdi_code.LogStream.{
  FixedBuffer, Item, c_string, convert, convert_hex, integer, new_buffer, pointer, put_all,
  string_item,
}
use my_cisdi_code.LogStream.Digits.{
  convert_hex_lem, convert_lem, hex_value, read_from, read_integer,
}
use my_cisdi_code.LogStream.Bounds.{Consists, put_all-Fits}

convert_least : convert (negsuc 2147483647) ≡ ok (codes "-2147483648")
unfolding convert
convert_least = refl

convert_lem_example :
    (text : Bytes) × (convert (negsuc 41) ≡ ok text)
    × (read_integer text ≡ some (negsuc 41))
    × (length text ≤ 21)
convert_lem_example = convert_lem (negsuc 41) (omega arith)

convert_hex_lem_example :
    (text : Bytes) × (convert_hex 48879 ≡ ok text)
    × (read_from 16 hex_value 0 text ≡ some 48879)
    × (length text ≤ 16)
convert_hex_lem_example = convert_hex_lem 48879 (omega arith)

abbrev line : List Item
line = string_item (codes "n = ") ∷ integer (pos 7) ∷ pointer 255 ∷ c_string none ∷ []

put_all-Fits_example :
    (b' : FixedBuffer) × (text : Bytes) × (put_all line (new_buffer 40) ≡ ok b')
    × (b'.content ≡ text)
    × Consists line text
    × (length b'.content < b'.size)
put_all-Fits_example =
    put_all-Fits line (new_buffer 40) (tt, (omega arith, (omega arith, (tt, tt)))) (omega arith)
