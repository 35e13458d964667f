-- ===== src/ProtobufCodecLite/Tests.antt =====
-- Frames at concrete inputs, with messages that are bytes and a checksum that counts them.
use my_cisdi_code.Prelude.{
  Bytes, List, [], arith, codes, length, none, ok, refl, replicate, some, ◌%◌, ◌++◌, ◌^◌, ◌∷◌, ◌≡◌,
}
use my_cisdi_code.Buffer.{Buffer, to_string_piece}
use my_cisdi_code.Buffer.Invariant.{IsValid}
use my_cisdi_code.Buffer.Integers.{host_to_network}
use my_cisdi_code.ProtobufCodecLite.{
  Called, IsLibrary, Library, fill_empty_buffer, finished, message_called, on_message,
}
use my_cisdi_code.ProtobufCodecLite.Frames.{fill_empty_buffer_lem, frame}
use my_cisdi_code.ProtobufCodecLite.Receive.{frames, on_message-frames}
use my_cisdi_code.ProtobufCodecLite.Total.{on_message_total}

abbrev plain : Library Bytes
plain = record {
  byte_size = length;
  serialize = λ xs. xs;
  parse_from_array = some;
  adler32 = λ xs. length xs % 2 ^ 32;
}

plain-IsLibrary : IsLibrary plain
plain-IsLibrary = record { sized = λ m. refl; parsed = λ m. refl; word = λ xs. omega arith }

abbrev rpc : Bytes
rpc = codes "RPC0"

abbrev hello : Bytes
hello = codes "hello"

abbrev fresh : Buffer
fresh = record { buffer = replicate 40 0; reader_index = 8; writer_index = 8 }

fresh-IsValid : IsValid fresh
fresh-IsValid = record {
  ordered = omega arith;
  bounded = omega arith;
  small = omega arith;
  roomy = omega arith;
}

fill_empty_buffer_lem_example :
    (b' : Buffer) × (fill_empty_buffer plain rpc hello fresh ≡ ok b')
    × IsValid b'
    × (to_string_piece b' ≡ frame plain rpc hello)
unfolding host_to_network
fill_empty_buffer_lem_example =
    fill_empty_buffer_lem plain rpc plain-IsLibrary hello fresh fresh-IsValid refl (omega arith)
      (omega arith) (omega arith)

abbrev wire : Bytes
wire = 0 ∷ 0 ∷ 0 ∷ 13 ∷ 82 ∷ 80 ∷ 67 ∷ 48 ∷ 104 ∷ 101 ∷ 108 ∷ 108 ∷ 111 ∷ 0 ∷ 0 ∷ 0 ∷ 9 ∷ 7 ∷ 7 ∷ []

abbrev arrived : Buffer
arrived = record { buffer = replicate 8 0 ++ wire; reader_index = 8; writer_index = 27 }

arrived-IsValid : IsValid arrived
arrived-IsValid = record {
  ordered = omega arith;
  bounded = omega arith;
  small = omega arith;
  roomy = omega arith;
}

arrived-frames :
    to_string_piece arrived ≡ frames plain rpc plain-IsLibrary (hello ∷ []) ++ (7 ∷ 7 ∷ [])
unfolding host_to_network
arrived-frames = refl

on_message-frames_example :
    (b' : Buffer) × (on_message plain rpc 2 none arrived ≡ finished (message_called hello ∷ []) b')
    × IsValid b'
    × (to_string_piece b' ≡ 7 ∷ 7 ∷ [])
unfolding host_to_network
on_message-frames_example =
    on_message-frames plain rpc plain-IsLibrary (hello ∷ []) (7 ∷ 7 ∷ []) 2 none arrived
      (omega arith) (λ xs. refl) arrived-IsValid arrived-frames (omega arith, tt) (omega arith)

on_message_total_example :
    (cs : List (Called Bytes)) × (b' : Buffer) × (on_message plain rpc 20 none arrived
      ≡ finished cs b')
    × IsValid b'
on_message_total_example = on_message_total plain rpc 20 none arrived arrived-IsValid (omega arith)
