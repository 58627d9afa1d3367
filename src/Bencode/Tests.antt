-- ===== src/Bencode/Tests.antt =====
-- The theorems on src/bencode.cpp at small buffers.
use btdht.Prelude.{
  ◌+◌, ◌≤◌, ◌<◌, ◌≡◌, refl, ap, Bool, true, false, some, none, List, [], ◌∷◌, ◌++◌, arith,
  replicate,
}
use btdht.Prelude.Bytes.{Byte}
use btdht.Prelude.Decimal.{decimal}
use btdht.Prelude.Int.{pos}
use btdht.Sp.{Buffer, IsValid, reference, reference-SpLaws}
use btdht.Bencode.Spec.{Encodes, string_text, integer_text}
use btdht.Bencode.Encode
use btdht.Bencode.Encode.{
  Writer, encode_raw, pair_str, pair_bytes, pair_uint, pair_int, value_closure, list, dict,
}
use btdht.Bencode.Encode.Correct.{encode_raw-Encodes, pair-Encodes}
use btdht.Bencode.Decode
use btdht.Bencode.Decode.{
  Reader, parse_string, parse_key, parse_key_value, parse_valuex, is, pair_value_ref, pair_u64,
  pair_u32, pair_u16, pair_ref, pair_ref_int, pair_any, read_numeric,
}
use btdht.Bencode.Decode.Clean.{IsClean, readers-IsClean}
use btdht.Bencode.Decode.Pairs.{w16, pair_of_lem}
use btdht.Bencode.Decode.Reads.{read_numeric-found}
use btdht.Bencode.Decode.Bounds.{read_numeric-le, read_numeric_overruns}
use btdht.Bencode.RoundTrip.{
  ReadsBack, string_round_trip, pair_bytes_round_trip, pair_uint_round_trip, pair_bool_round_trip,
}

-- An empty buffer of thirty-two bytes.
abbrev blank : Buffer
blank = record { raw = replicate 32 0; capacity = 32; length = 0; pos = 0 }

blank-IsValid : IsValid blank
blank-IsValid = record { size = refl; cursor = omega arith }

abbrev port : List Byte
port = b'p' ∷ b'o' ∷ b'r' ∷ b't' ∷ []

succeeds : {r : Bool × Buffer} {b : Buffer} → r ≡ (true, b) → r.0 ≡ true
succeeds e = ap (λ (q : Bool × Buffer). q.0) e

string_round_trip_example :
    ReadsBack blank (encode_raw reference port) (parse_string reference) port
unfolding decimal
string_round_trip_example =
    string_round_trip reference reference-SpLaws blank blank-IsValid port (omega arith) (
      succeeds (
        (encode_raw-Encodes reference reference-SpLaws port).fits blank blank-IsValid
          (omega arith)))

pair_bytes_round_trip_example :
    ReadsBack blank (pair_bytes reference port port) (parse_key_value reference port 8) port
unfolding decimal
pair_bytes_round_trip_example =
    pair_bytes_round_trip reference reference-SpLaws blank blank-IsValid port (omega arith) port 8
      (omega arith) (omega arith)
      (succeeds (
        (pair-Encodes reference reference-SpLaws port port 0 (pos 0) true).1.fits blank
          blank-IsValid (omega arith)))

pair_uint_round_trip_example :
    ReadsBack blank (pair_uint reference port 6881) (pair_u16 reference port) 6881
unfolding decimal
pair_uint_round_trip_example =
    pair_uint_round_trip reference reference-SpLaws blank blank-IsValid port (omega arith) 6881 w16
      (omega arith) (omega arith)
      (succeeds (
        (pair-Encodes reference reference-SpLaws port port 6881 (pos 0) true).2.fits blank
          blank-IsValid (omega arith)))

pair_bool_round_trip_example :
    ReadsBack blank (Encode.pair_bool reference port false) (Decode.pair_bool reference port) false
unfolding decimal
pair_bool_round_trip_example =
    pair_bool_round_trip reference reference-SpLaws blank blank-IsValid port (omega arith) false (
      succeeds (
        (pair-Encodes reference reference-SpLaws port port 0 (pos 0) false).4.fits blank
          blank-IsValid (omega arith)))

pair-Encodes_example :
    Encodes (pair_str reference port port) (string_text port ++ string_text port)
    × Encodes (pair_bytes reference port port) (string_text port ++ string_text port)
    × Encodes (pair_uint reference port 7) (string_text port ++ integer_text (decimal 7))
    × Encodes
        (pair_int reference port (pos 7))
        (string_text port ++ integer_text (Encode.signed_decimal (pos 7)))
    × Encodes (Encode.pair_bool reference port true) (string_text port ++ integer_text (decimal 1))
pair-Encodes_example = pair-Encodes reference reference-SpLaws port port 7 (pos 7) true

readers-IsClean_example :
    IsClean (parse_string reference)
    × IsClean (parse_key reference port)
    × IsClean (parse_key_value reference port 4)
    × IsClean (parse_valuex reference)
    × IsClean (is reference port)
    × IsClean (pair_value_ref reference port)
    × IsClean (Decode.pair_bool reference port)
    × IsClean (pair_u64 reference port)
    × IsClean (pair_u32 reference port)
    × IsClean (pair_u16 reference port)
    × IsClean (pair_ref reference)
    × IsClean (pair_ref_int reference)
    × IsClean (pair_any reference 8 8)
readers-IsClean_example = readers-IsClean reference port 4 8 8

-- `1:ai70000e`, all of it received.
abbrev large : Buffer
large = record {
  raw = b'1' ∷ b':' ∷ b'a' ∷ b'i' ∷ b'7' ∷ b'0' ∷ b'0' ∷ b'0' ∷ b'0' ∷ b'e' ∷ [];
  capacity = 10;
  length = 10;
  pos = 0;
}

pair_of_lem_example : pair_u16 reference (b'a' ∷ []) large ≡ (none, large)
unfolding decimal
pair_of_lem_example =
    pair_of_lem reference reference-SpLaws (b'a' ∷ []) (omega arith) 70000 (omega arith) w16 large
      (record { size = refl; filled = omega arith; cursor = omega arith }) (omega arith)
      (omega arith)

-- `12` was received; behind it stand bytes of an earlier message.
abbrev stale : Buffer
stale = record {
  raw = b'1' ∷ b'2' ∷ b'3' ∷ b'4' ∷ b':' ∷ b'x' ∷ [];
  capacity = 6;
  length = 2;
  pos = 0;
}

read_numeric_overruns_example :
    ((read_numeric reference b':' stale).0 ≡ some 1234)
    × (2 < (read_numeric reference b':' stale).1.pos)
unfolding decimal
read_numeric_overruns_example =
    read_numeric_overruns reference reference-SpLaws b':' stale 1234
      (record { size = refl; filled = omega arith; cursor = omega arith }) (omega arith)
      (omega arith) (omega arith) (omega arith) (omega arith)

-- `12:` of which all was received.
abbrev twelve : Buffer
twelve = record { raw = b'1' ∷ b'2' ∷ b':' ∷ []; capacity = 3; length = 3; pos = 0 }

read_numeric-le_example : (0 < 3) × (3 ≤ 2 + 1) × (3 ≤ twelve.length)
unfolding decimal
read_numeric-le_example =
    read_numeric-le reference b':' twelve (record twelve { pos = 3 }) 2 12 (omega arith)
      (omega arith) refl
      (read_numeric-found reference reference-SpLaws b':' 12 (omega arith) (omega arith) twelve
        (record { size = refl; filled = omega arith; cursor = omega arith }) (omega arith)
        (omega arith))
