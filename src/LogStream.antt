-- ===== src/LogStream.antt =====
-- muduo/base/LogStream.h and LogStream.cc: text put together in a buffer of fixed size. The buffer is
-- what stands before `cur_`; a write by hand past the end of the array counts as a fault.
pub mod Digits
pub mod Bounds
mod Tests
use my_cisdi_code.Prelude.{
  Bool, Bytes, List, Option, Result, [], assertion_failed, codes, false, fault, get_elem?,
  if◌then◌else◌, leb, length, ltb, negsuc, none, ok, out_of_bounds, pos, some, suc, true, zero, ℕ,
  ℤ, ◌%◌, ◌++◌, ◌+◌, ◌-◌, ◌/◌, ◌==◌, ◌>>=◌, ◌>>◌, ◌∷◌,
}
use mathlib.Core.List.{reverse}

abbrev pub is_negative : ℤ → Bool
is_negative (pos n) = false
is_negative (negsuc n) = true

abbrev pub magnitude : ℤ → ℕ
magnitude (pos n) = n
magnitude (negsuc n) = n + 1

abbrev pub digits : Bytes
digits = codes "9876543210123456789"

abbrev pub digits_hex : Bytes
digits_hex = codes "0123456789ABCDEF"

abbrev pub in_table : Option ℕ → Result ℕ
in_table none = fault out_of_bounds
in_table (some c) = ok c

-- `zero[lsd]`, where `lsd` is a remainder of 10 with the sign of the value.
abbrev pub zero_at : Bool → ℕ → Result ℕ
zero_at negative lsd = in_table (get_elem? digits (if negative then 9 - lsd else 9 + lsd))

-- The `do` loop of `convert`, and of `convertHex`, with what is written so far: `/` and `%` of C keep the
-- sign, so the loop runs on the magnitude. It takes fuel.
unfoldable pub convert_digits : ℕ → ℕ → (ℕ → Result ℕ) → ℕ → Bytes → Result Bytes
convert_digits zero base digit i written = fault assertion_failed
convert_digits (suc fuel) base digit i written = do
  c ← digit (i % base)
  let rest = convert_digits fuel base digit (i / base) (written ++ (c ∷ []))
  if i / base == 0 then ok (written ++ (c ∷ [])) else rest

-- 64 bits have at most 20 decimal digits and 16 hexadecimal ones.
unfoldable pub convert : ℤ → Result Bytes
unfolding convert_digits
convert value = do
  written ← convert_digits 20 10 (zero_at (is_negative value)) (magnitude value) []
  ok (reverse (if is_negative value then written ++ (b'-' ∷ []) else written))

unfoldable pub convert_hex : ℕ → Result Bytes
unfolding convert_digits
convert_hex value = do
  written ← convert_digits 16 16 (λ lsd. in_table (get_elem? digits_hex lsd)) value []
  ok (reverse written)

abbrev pub small_buffer : ℕ
small_buffer = 4000

abbrev pub max_numeric_size : ℕ
max_numeric_size = 32

pub record FixedBuffer : Type 0 where
  pub size : ℕ
  pub content : Bytes

abbrev pub new_buffer : ℕ → FixedBuffer
new_buffer size = record { size = size; content = [] }

abbrev pub avail : FixedBuffer → ℕ
avail b = b.size - length b.content

-- Text that does not fit with a byte to spare is dropped.
unfoldable pub append : Bytes → FixedBuffer → FixedBuffer
append text b = if ltb (length text) (avail b) then record b { content = b.content ++ text } else b

-- Text and a zero byte written at `current()`, and `add` of the length of the text.
unfoldable pub write_current : Bytes → FixedBuffer → Result FixedBuffer
write_current text b =
    if ltb (length text) (avail b)
    then ok (record b { content = b.content ++ text })
    else fault out_of_bounds

abbrev pub reset : FixedBuffer → FixedBuffer
reset b = record b { content = [] }

unfoldable pub format_integer : ℤ → FixedBuffer → Result FixedBuffer
unfolding convert write_current
format_integer v b =
    if leb max_numeric_size (avail b) then (do text ← convert v; write_current text b) else ok b

unfoldable pub format_pointer : ℕ → FixedBuffer → Result FixedBuffer
unfolding convert_hex write_current
format_pointer p b =
    if leb max_numeric_size (avail b)
    then (do text ← convert_hex p; write_current (b'0' ∷ b'x' ∷ text) b)
    else ok b

-- What the operators `<<` take; the integer types are all converted alike.
pub data Item : Type 0 where
  bool_item : Bool → Item
  char_item : ℕ → Item
  -- A C string, which may be null, and a string with its length.
  c_string : Option Bytes → Item
  string_item : Bytes → Item
  integer : ℤ → Item
  pointer : ℕ → Item

unfoldable pub put : Item → FixedBuffer → Result FixedBuffer
unfolding append format_integer format_pointer
put (bool_item v) b = ok (append (if v then b'1' ∷ [] else b'0' ∷ []) b)
put (char_item c) b = ok (append (c ∷ []) b)
put (c_string (some text)) b = ok (append text b)
put (c_string none) b = ok (append (codes "(null)") b)
put (string_item text) b = ok (append text b)
put (integer v) b = format_integer v b
put (pointer p) b = format_pointer p b

-- One `<<` after the other.
unfoldable pub put_all : List Item → FixedBuffer → Result FixedBuffer
put_all [] b = ok b
put_all (x ∷ xs) b = do b' ← put x b; put_all xs b'
