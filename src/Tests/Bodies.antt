-- ===== src/Tests/Bodies.antt =====
-- The ends of chunked bodies.
use hcpp.Common.{
  ◌≡◌, ◌<◌, ◌^◌, refl, arith, some, true, false, [], ◌∷◌, codes, find, starts_with, digit_of,
}
use hcpp.Memory.Connection.{connection, stream, Connection}
use hcpp.Kmp.{search}
use hcpp.Kmp.Places.{line_ends, start}
use hcpp.Kmp.Search.{Answers, search-find}
use hcpp.Transfer.Until.{transfer_mem_until}
use hcpp.Transfer.Found.{Flushed, transfer_mem_until-found}
use hcpp.Memory.Shown.{shown}
use hcpp.Http.Chunks.{hex_str_to, search_hex, hex_number, transfer_chunk}
use hcpp.Http.Chunks.Held.{Chunk, IsLine}
use hcpp.Http.Chunks.Copied.{Copied, transfer_chunk-Copied}
use hcpp.Http.Chunks.Hex.{hex_str_to-digits}
use hcpp.Tests.Network.{one_by_one, sink}
use hcpp.Buffer.{SocketMemory, flat}
use hcpp.Buffer.Chain.{IsValid}

search-find_example : Answers (codes "a\r\r\n\r\nb") (some 2) (search (codes "a\r\r\n\r\nb") start)
unfolding find starts_with
search-find_example = search-find (codes "a\r\r\n\r\nb") (omega arith)

-- The last chunk and its end are buffered.
abbrev last_chunk : SocketMemory
last_chunk = record {
  read_ok = true;
  write_ok = true;
  closed = false;
  buffs = record { begin = 0; bytes = codes "0\r\n\r\n" } ∷ [];
  read_index = 0;
  write_index = 5;
}

last_chunk-IsValid : IsValid last_chunk
last_chunk-IsValid = record {
  chain = (refl, omega arith, refl);
  starts = (omega arith, omega arith);
}

abbrev ending : Connection one_by_one
ending = record { sock = (20 ∷ [], []); buffer = last_chunk }

transfer_mem_until-found_example :
    Flushed
      (connection one_by_one)
      sink
      (stream one_by_one)
      ending
      []
      (transfer_mem_until (connection one_by_one) sink 3 line_ends ending [])
unfolding find starts_with stream flat
transfer_mem_until-found_example =
    transfer_mem_until-found (connection one_by_one) sink (stream one_by_one) 3 1 ending []
      last_chunk-IsValid (omega arith) (omega arith) refl

hex_str_to-digits_example : (hex_str_to (codes "1aF") ≡ some 431) × (431 < 2 ^ 64)
unfolding digit_of
hex_str_to-digits_example =
    hex_str_to-digits b'1' 1 (codes "aF") (10 ∷ 15 ∷ []) (omega arith) (refl, (refl, (refl, tt)))
      (omega arith)

-- Three bytes in a chunk with an extension, in two blocks, with the last chunk behind.
abbrev chunked_body : SocketMemory
chunked_body = record {
  read_ok = true;
  write_ok = true;
  closed = false;
  buffs =
      record { begin = 7; bytes = codes "3;a=b\r\na" }
      ∷ record { begin = 15; bytes = codes "bc\r\n0\r\n\r\n" }
      ∷ [];
  read_index = 7;
  write_index = 24;
}

chunked_body-IsValid : IsValid chunked_body
chunked_body-IsValid = record {
  chain = (refl, omega arith, (refl, omega arith, refl));
  starts = (omega arith, omega arith);
}

abbrev three : Chunk
three = record { line = codes "3;a=b"; content = codes "abc" }

abbrev body_before : Connection one_by_one
body_before = record { sock = (20 ∷ [], []); buffer = chunked_body }

three-IsLine : IsLine three.line
three-IsLine = ground arith

zero-IsLine : IsLine (codes "0")
zero-IsLine = ground arith

transfer_chunk-Copied_example :
    Copied
      (connection one_by_one)
      sink
      (stream one_by_one)
      0
      body_before
      []
      (transfer_chunk (connection one_by_one) sink 3 body_before [])
unfolding stream shown flat find starts_with hex_str_to search_hex hex_number digit_of
transfer_chunk-Copied_example =
    transfer_chunk-Copied (connection one_by_one) sink (stream one_by_one) (shown one_by_one) 3 1
      (three ∷ []) body_before [] (codes "0") (codes "\r\n") chunked_body-IsValid (omega arith)
      (omega arith) refl ((three-IsLine, omega arith, refl), tt) zero-IsLine refl refl (omega arith)
