-- ===== src/LogStream/Bounds.antt =====
-- The fixed buffer is never overrun.
use my_cisdi_code.Prelude.{
  Bool-cases, Bytes, List, Result, [], ap, arith, codes, if◌then◌else◌, inl, inr, leb, leb→le,
  length, length-append, ltb, ltb→lt, lt→ltb, none, ok, refl, some, sym, true, ◌++◌, ◌<◌, ◌^◌, ◌∙◌,
  ◌∷◌, ◌≡◌, ◌≤◌, ◌⊎◌,
}
use my_cisdi_code.LogStream.{
  FixedBuffer, Item, append, avail, bool_item, c_string, char_item, format_integer, format_pointer,
  integer, magnitude, max_numeric_size, pointer, put, put_all, string_item, write_current,
}
use mathlib.Core.List.{append_assoc, append-nil}
use my_cisdi_code.LogStream.Digits.{
  convert_hex_lem, convert_lem, hex_value, read_from, read_integer,
}

-- Room for the byte behind the text, as `debugString` wants it.
abbrev pub Fits : FixedBuffer → Type 0
Fits b = length b.content < b.size

-- The numbers in the items have at most 64 bits.
abbrev pub IsItem : Item → Type 0
IsItem (integer v) = magnitude v < 2 ^ 64
IsItem (pointer p) = p < 2 ^ 64
IsItem _ = Unit {0}

abbrev pub AreItems : List Item → Type 0
AreItems [] = Unit {0}
AreItems (x ∷ xs) = IsItem x × AreItems xs

-- The text that stands for an item.
abbrev pub TextOf : Item → Bytes → Type 0
TextOf (bool_item v) t = t ≡ (if v then b'1' ∷ [] else b'0' ∷ [])
TextOf (char_item c) t = t ≡ c ∷ []
TextOf (c_string none) t = t ≡ codes "(null)"
TextOf (c_string (some text)) t = t ≡ text
TextOf (string_item text) t = t ≡ text
TextOf (integer v) t = read_integer t ≡ some v
TextOf (pointer p) t =
    (ds : Bytes) × (t ≡ b'0' ∷ b'x' ∷ ds) × (read_from 16 hex_value 0 ds ≡ some p)

-- Text that consists of the items one after the other, each whole or left out.
abbrev pub Consists : List Item → Bytes → Type 0
Consists [] text = text ≡ []
Consists (x ∷ xs) text =
    (t rest : Bytes) × (text ≡ t ++ rest) × ((t ≡ []) ⊎ TextOf x t) × Consists xs rest

-- What an operation does: it adds the text or nothing.
record Added (P : Bytes → Type 0) (b : FixedBuffer) (r : Result FixedBuffer) : Type 0 where
  after : FixedBuffer
  returns : r ≡ ok after
  text : Bytes
  whole : (text ≡ []) ⊎ P text
  content : after.content ≡ b.content ++ text
  same_size : after.size ≡ b.size
  fits : Fits after

module _ (P : Bytes → Type 0) (text : Bytes) (p : P text) (b : FixedBuffer) (h : Fits b) where
  unchanged : Added P b (ok b)
  unchanged = record {
    after = b;
    returns = refl;
    text = [];
    whole = inl refl;
    content = sym (append-nil b.content);
    same_size = refl;
    fits = h;
  }

  longer :
      ltb (length text) (avail b) ≡ true → Added P b (ok (record b { content = b.content ++ text }))
  longer room = record {
    after = record b { content = b.content ++ text };
    returns = refl;
    text = text;
    whole = inr p;
    content = refl;
    same_size = refl;
    fits = omega (arith, length-append b.content text, ltb→lt (length text) (avail b) room);
  }

  append-Added : Added P b (ok (append text b))
  unfolding append
  append-Added = elim (Bool-cases (ltb (length text) (avail b))) [
    | inl room ↦ rw room (longer room)
    | inr full ↦ rw full unchanged
  ]

  write_current-Added :
      length text ≤ 23 → leb max_numeric_size (avail b) ≡ true → Added P b (write_current text b)
  unfolding write_current
  write_current-Added short wide =
      let room : ltb (length text) (avail b) ≡ true =
        lt→ltb (length text) (avail b)
          (omega (arith, short, leb→le max_numeric_size (avail b) wide)) in
      rw room (longer room)

put-Added : (x : Item) (b : FixedBuffer) → IsItem x → Fits b → Added (TextOf x) b (put x b)
unfolding put format_integer format_pointer
put-Added (bool_item v) b i h = append-Added _ _ refl b h
put-Added (char_item c) b i h = append-Added _ (c ∷ []) refl b h
put-Added (c_string none) b i h = append-Added _ (codes "(null)") refl b h
put-Added (c_string (some text)) b i h = append-Added _ text refl b h
put-Added (string_item text) b i h = append-Added _ text refl b h
put-Added (integer v) b i h = elim (Bool-cases (leb max_numeric_size (avail b))) [
  | inl wide ↦
      let (text, e, reads, short) = convert_lem v i in
      rw (wide, e)
        (write_current-Added (TextOf (integer v)) text reads b h (omega (arith, short)) wide)
  | inr narrow ↦
      let (text, e, reads, short) = convert_lem v i in
      rw narrow (unchanged (TextOf (integer v)) text reads b h)
]
put-Added (pointer p) b i h = elim (Bool-cases (leb max_numeric_size (avail b))) [
  | inl wide ↦
      let (ds, e, reads, short) = convert_hex_lem p i in
      rw (wide, e)
        (write_current-Added (TextOf (pointer p)) (b'0' ∷ b'x' ∷ ds) (ds, refl, reads) b h
          (omega (arith, short)) wide)
  | inr narrow ↦
      let (ds, e, reads, short) = convert_hex_lem p i in
      rw narrow (unchanged (TextOf (pointer p)) (b'0' ∷ b'x' ∷ ds) (ds, refl, reads) b h)
]

-- Any sequence of `<<` on a buffer that is not full, with numbers of at most 64 bits: no write goes past
-- the end of the array, a byte behind the text stays free, and what is added to the text is the texts
-- of the items in order, each of them whole or left out.
pub put_all-Fits :
    (xs : List Item) (b : FixedBuffer)
    → AreItems xs
    → Fits b
    → (b' : FixedBuffer) × (text : Bytes) × (put_all xs b ≡ ok b')
      × (b'.content ≡ b.content ++ text)
      × Consists xs text
      × Fits b'
unfolding put_all
put_all-Fits [] b i h = (b, [], refl, sym (append-nil b.content), refl, h)
put_all-Fits (x ∷ xs) b (i, is) h =
    let a = put-Added x b i h in
    let (b', text, e, content, parts, fits) = put_all-Fits xs a.after is a.fits in
    (
      b',
      a.text ++ text,
      rw a.returns e,
      content ∙ ap (λ ys. ys ++ text) a.content ∙ append_assoc b.content a.text text,
      (a.text, text, refl, a.whole, parts),
      fits,
    )
