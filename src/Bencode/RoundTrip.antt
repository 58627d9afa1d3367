-- ===== src/Bencode/RoundTrip.antt =====
-- What the writers of src/bencode.cpp write, its readers read back.
use btdht.Prelude.{
  ℕ, ◌+◌, ◌^◌, ◌≤◌, ◌<◌, ◌≡◌, sym, ◌∙◌, inl, inr, Bool, true, false, some, List, ◌++◌, arith, ltb,
  ltb→lt, ltb→le, Bool-cases, if◌then◌else◌, length,
}
use btdht.Prelude.Bytes.{Byte, Holds-store, length-store}
use btdht.Prelude.Decimal.{decimal}
use btdht.Prelude.Int
use btdht.Sp.{Buffer, Sp, SpLaws, IsValid}
use btdht.Bencode.Spec.{appended, Encodes, string_text, integer_text}
use btdht.Bencode.Encode.{Writer, encode_raw, pair_bytes, pair_uint, pair_bool}
use btdht.Bencode.Encode.Contract.{Emits}
use btdht.Bencode.Encode.Correct.{encode_raw-Encodes, pair-Encodes}
use btdht.Bencode.Decode
use btdht.Bencode.Decode.{Reader, parse_string, parse_key_value, pair_u64, pair_u32, pair_u16}
use btdht.Bencode.Decode.Contract.{IsReadable, Reads}
use btdht.Bencode.Decode.Reads.{parse_string-Reads}
use btdht.Bencode.Decode.Pairs.{
  Width, width_bits, pair_of, parse_key_value-Reads, pair_of-Reads, pair_bool-Reads,
}

-- What was written from `p` on, as a buffer to read.
abbrev pub reread : ℕ → Buffer → Buffer
reread p b = record b { pos = p; length = b.pos }

-- The reader yields `a` from what the writer wrote, and stops where the writer stopped.
abbrev pub ReadsBack {ℓ} : {A : Type ℓ} → Buffer → Writer → Reader A → A → Type ℓ
ReadsBack b m r a =
    let written = (m b).1 in
    r (reread b.pos written) ≡ (some a, record (reread b.pos written) { pos = written.pos })

module _ {ℓ} {A : Type ℓ} (m : Writer) (r : Reader A) (xs : List Byte) (a : A) where
  fits_of_success :
      (b : Buffer) → Emits m xs → IsValid b → (m b).0 ≡ true → b.pos + length xs ≤ b.capacity
  fits_of_success b e v done = elim (Bool-cases (ltb b.capacity (b.pos + length xs))) [
    | inl over ↦
        let failed : (m b).0 ≡ false = (e.refuses b v (ltb→lt _ _ over)).failed in
        cc (sym done ∙ failed)
    | inr under ↦ ltb→le _ _ under
  ]

  pub emitted_round_trip :
      Emits m xs → Reads r xs a → (b : Buffer) → IsValid b → (m b).0 ≡ true → ReadsBack b m r a
  emitted_round_trip e f b v done =
      let room = fits_of_success b e v done in
      let valid : IsReadable (reread b.pos (appended b xs)) = record {
        size = v.size ∙ sym (length-store b.raw b.pos xs);
        filled = room;
        cursor = omega arith;
      } in
      rw (e.fits b v room) (
        f.reads (reread b.pos (appended b xs)) valid
          (Holds-store b.raw b.pos xs (omega (arith, v.size))) (omega arith))

  pub round_trip :
      Encodes m xs → Reads r xs a → (b : Buffer) → IsValid b → (m b).0 ≡ true → ReadsBack b m r a
  round_trip e f =
      emitted_round_trip (record { fits = e.fits; refuses = λ b v h. (e.refuses b v h).aborted }) f

module _ (sp : Sp) (laws : SpLaws sp) (b : Buffer) (v : IsValid b) where
  -- A string shorter than 2^64 bytes that `encode_raw` wrote into a valid buffer, without running out
  -- of room, is read back whole by `parse_string`, which stops where the writer stopped.
  pub string_round_trip :
      (str : List Byte)
      → length str < 2 ^ 64
      → (encode_raw sp str b).0 ≡ true
      → ReadsBack b (encode_raw sp str) (parse_string sp) str
  string_round_trip str h done =
      round_trip _ _ (string_text str) str (encode_raw-Encodes sp laws str)
        (parse_string-Reads sp laws str h) b v done

  module _ (key : List Byte) (hk : length key < 2 ^ 64) where
    -- A key and bytes that `pair` wrote, without running out of room, are read back by `pair_x` with
    -- the same key, if the destination has room for the bytes; key and bytes are shorter than 2^64.
    pub pair_bytes_round_trip :
        (str : List Byte) (len : ℕ)
        → length str < 2 ^ 64
        → length str ≤ len
        → (pair_bytes sp key str b).0 ≡ true
        → ReadsBack b (pair_bytes sp key str) (parse_key_value sp key len) str
    pair_bytes_round_trip str len h fits done =
        round_trip _ _ (string_text key ++ string_text str) str
          (pair-Encodes sp laws key str 0 (Int.pos 0) true).1
          (parse_key_value-Reads sp laws key hk str len h fits) b v done

    -- A key and an unsigned number that `pair` wrote, without running out of room, are read back
    -- with the same key at every width that holds the number; the key is shorter than 2^64.
    pub pair_uint_round_trip :
        (n : ℕ) (w : Width)
        → n < 2 ^ 64
        → n < 2 ^ width_bits w
        → (pair_uint sp key n b).0 ≡ true
        → ReadsBack b (pair_uint sp key n) (pair_of sp w key) n
    pair_uint_round_trip n w h small done =
        round_trip _ _ (string_text key ++ integer_text (decimal n)) n
          (pair-Encodes sp laws key key n (Int.pos 0) true).2
          (pair_of-Reads sp laws key hk n h w small) b v done

    -- A flag that `pair` wrote under a key shorter than 2^64, without running out of room, is read
    -- back under the same key.
    pub pair_bool_round_trip :
        (flag : Bool)
        → (pair_bool sp key flag b).0 ≡ true
        → ReadsBack b (pair_bool sp key flag) (Decode.pair_bool sp key) flag
    pair_bool_round_trip flag done =
        round_trip _ _ (string_text key ++ integer_text (decimal (if flag then 1 else 0))) flag
          (pair-Encodes sp laws key key 0 (Int.pos 0) flag).4 (flag_reads flag) b v done
      where
        flag_reads :
            (f : Bool)
            → Reads
                (Decode.pair_bool sp key)
                (string_text key ++ integer_text (decimal (if f then 1 else 0)))
                f
        flag_reads true = pair_bool-Reads sp laws key hk 1 (omega arith)
        flag_reads false = pair_bool-Reads sp laws key hk 0 (omega arith)
