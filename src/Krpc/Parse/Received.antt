-- ===== src/Krpc/Parse/Received.antt =====
-- What `krpc::d::krpc` of src/krpc.h makes of the frames that src/krpc_shared.h writes.
use btdht.Prelude.{
  ℕ, suc, ◌+◌, ◌≤◌, ◌≡◌, refl, subst, ap, ◌∙◌, Bool, true, false, Option, none, some, List, [], ◌∷◌,
  ◌++◌, append_assoc, arith, length, length-append, take,
}
use btdht.Prelude.Bytes.{Byte, Holds, Holds-append}
use btdht.Prelude.Text.{bytes}
use btdht.Address.{Transaction}
use btdht.Sp.{Buffer, Sp, SpLaws}
use btdht.Bencode.Spec.{string_text}
use btdht.Bencode.Tree.{dict, Fields, field, text, field_texts}
use btdht.Bencode.Decode.{Reader}
use btdht.Bencode.Decode.Contract.{IsReadable, Reads, Before}
use btdht.Bencode.Decode.Pairs.{parse_key_value-Reads}
use btdht.Bencode.Decode.Skips.{Skips}
use btdht.Bencode.Plain.{HasPlain, rounds}
use btdht.Krpc.Frame.{tail_fields, query_fields}
use btdht.Krpc.Parse.Fields.{past_bytes, past_contact, at_key-Skips, got}
use btdht.Krpc.Parse.Rounds.{skipped, dict-Reads}
use btdht.Krpc.Parse.Receive.{
  Frame, blank_frame, tx_of, known_field, frame_loop, complete, hand_over, krpc,
}
use btdht.Krpc.Parse.Frames.{
  frame-ends, frame-goes, known_field-Skips, Body, arguments, reply, body_key, marked, body-goes,
}

-- The frame of a message of the type `mt` before its last fields are read, and when it is.
abbrev pub begun : List Byte → Bool → ℕ → ℕ → Frame
begun query q start stop = record (marked blank_frame start stop) { query = query; q = q }

abbrev pub used : Transaction → List Byte
used t = take t.length t.id

abbrev pub received : Transaction → List Byte → List Byte → Bool → ℕ → ℕ → Frame
received t mt query q start stop = record (begun query q start stop) {
  tx = tx_of (used t);
  t = true;
  remote_version = bytes "sp02";
  v = true;
  msg_type = mt;
  y = true;
}

abbrev pub query_bytes : Option (List Byte) → List Byte
query_bytes none = []
query_bytes (some query) = query

abbrev pub has_query : Option (List Byte) → Bool
has_query none = false
has_query (some query) = true

-- What the parser relies on of a buffer that takes a part of another: it holds what stands there.
pub record CutLaws (cut : Buffer → ℕ → ℕ → Buffer) : Type 0 where
  pub cut_readable :
      (b : Buffer) (start stop : ℕ)
      → IsReadable b
      → start ≤ stop
      → stop ≤ b.length
      → IsReadable (cut b start stop)
  pub cut_Holds :
      (b : Buffer) (start stop : ℕ) (xs : List Byte)
      → IsReadable b
      → start + length xs ≡ stop
      → stop ≤ b.length
      → Holds b.raw start xs
      → Holds (cut b start stop).raw (cut b start stop).pos xs
        × ((cut b start stop).pos + length xs ≤ (cut b start stop).length)

module _ (sp : Sp) (laws : SpLaws sp) (t : Transaction) (ht : length (used t) ≤ 32) where
  tail-Before :
      (n : ℕ) (mt query : List Byte) (q : Bool) (start stop : ℕ)
      → length mt ≤ 16
      → Before
          (frame_loop sp (suc (suc (suc (suc n)))) (begun query q start stop))
          (field_texts (tail_fields t mt))
          (b'e' ∷ [])
          (received t mt query q start stop)
  unfolding known_field text
  tail-Before n mt query q start stop hm =
      frame-goes sp laws _ _ _ _ (bytes "t") (string_text (used t)) _ _
        (got _ _ _ _ (used t)
          (parse_key_value-Reads sp laws (bytes "t") (omega arith) (used t) 32 (omega arith) ht))
        (frame-goes sp laws _ _ _ _ (bytes "v") (string_text (bytes "sp02")) _ _
          (skipped _ _ _ _
            (past_bytes sp _ _ (at_key-Skips sp laws (bytes "v") (omega arith) (bytes "t") _ refl) _
              _ _)
            (skipped _ _ _ _
              (past_bytes sp _ _ (at_key-Skips sp laws (bytes "v") (omega arith) (bytes "y") _ refl)
                _ _ _)
              (skipped _ _ _ _
                (past_bytes sp _ _
                  (at_key-Skips sp laws (bytes "v") (omega arith) (bytes "q") _ refl) _ _ _)
                (skipped _ _ _ _
                  (past_contact sp _ _
                    (at_key-Skips sp laws (bytes "v") (omega arith) (bytes "ip") _ refl) _ _)
                  (got _ _ _ _ (bytes "sp02") (
                    parse_key_value-Reads sp laws (bytes "v") (omega arith) (bytes "sp02") 5
                      (omega arith) (omega arith)))))))
          (frame-goes sp laws _ _ _ _ (bytes "y") (string_text mt) _ _
            (skipped _ _ _ _
              (past_bytes sp _ _ (at_key-Skips sp laws (bytes "y") (omega arith) (bytes "t") _ refl)
                _ _ _)
              (got _ _ _ _ mt
                (parse_key_value-Reads sp laws (bytes "y") (omega arith) mt 16 (omega arith) hm)))
            (frame-ends sp laws n (received t mt query q start stop))))

  query-Before :
      (n : ℕ) (mt : List Byte) (query : Option (List Byte)) (start stop : ℕ)
      → length mt ≤ 16
      → length (query_bytes query) ≤ 64
      → Before
          (frame_loop sp (suc (suc (suc (suc (suc n))))) (marked blank_frame start stop))
          (field_texts (query_fields query (tail_fields t mt)))
          (b'e' ∷ [])
          (received t mt (query_bytes query) (has_query query) start stop)
  unfolding known_field text
  query-Before n mt none start stop hm hq = tail-Before (suc n) mt [] false start stop hm
  query-Before n mt (some query) start stop hm hq =
      frame-goes sp laws _ _ _ _ (bytes "q") (string_text query) _ _
        (skipped _ _ _ _
          (past_bytes sp _ _ (at_key-Skips sp laws (bytes "q") (omega arith) (bytes "t") _ refl) _ _
            _)
          (skipped _ _ _ _
            (past_bytes sp _ _ (at_key-Skips sp laws (bytes "q") (omega arith) (bytes "y") _ refl) _
              _ _)
            (got _ _ _ _ query
              (parse_key_value-Reads sp laws (bytes "q") (omega arith) query 64 (omega arith) hq))))
        (tail-Before n mt query true start stop hm)

  key_first :
      (k : Body) (xs : List Byte)
      → Skips (known_field sp blank_frame) (string_text (body_key k) ++ xs)
  key_first arguments xs =
      known_field-Skips sp laws blank_frame (bytes "a") xs (omega arith)
        (refl, refl, refl, refl, refl, refl)
  key_first reply xs =
      known_field-Skips sp laws blank_frame (bytes "r") xs (omega arith)
        (refl, refl, refl, refl, refl, refl)

  module _ {A : Type 0} (cut : Buffer → ℕ → ℕ → Buffer) (cuts : CutLaws cut)
      (handle : Frame → Reader A) (a : A) (k : Body) (mt : List Byte) (query : Option (List Byte))
      (fs : Fields) (n : ℕ) where
    abbrev whole_frame : ℕ → ℕ → Frame
    whole_frame = received t mt (query_bytes query) (has_query query)

    hand_over_lem :
        (b : Buffer) (start stop : ℕ)
        → Reads (handle (whole_frame start stop)) (text (dict fs)) a
        → IsReadable b
        → start + length (text (dict fs)) ≡ stop
        → stop ≤ b.length
        → Holds b.raw start (text (dict fs))
        → hand_over sp cut handle (whole_frame start stop) b ≡ (some a, b)
    hand_over_lem b start stop e v size room held =
        let valid = cuts.cut_readable b start stop v (omega arith) room in
        let (there, fits) = cuts.cut_Holds b start stop (text (dict fs)) v size room held in
        rw (e.reads (cut b start stop) valid there fits) refl

    -- Where the frame is complete, the handler has it and a buffer with the body.
    pub krpc-Reads :
        length mt ≤ 16
        → length (query_bytes query) ≤ 64
        → HasPlain fs
        → rounds (dict fs) ≤ suc (suc (suc (suc (suc n))))
        → ((start stop : ℕ) → complete sp (whole_frame start stop) ≡ true)
        → ((start stop : ℕ) → Reads (handle (whole_frame start stop)) (text (dict fs)) a)
        → Reads
            (krpc sp cut (suc (suc (suc (suc (suc (suc n)))))) handle)
            (text (dict (field (body_key k) (dict fs) (query_fields query (tail_fields t mt)))))
            a
    unfolding krpc text
    krpc-Reads hm hq plain fuel whole reads = dict-Reads sp laws _ _ a (record {
      reads = λ b v held room.
          let xs = string_text (body_key k) ++ text (dict fs) in
          let ys = field_texts (query_fields query (tail_fields t mt)) in
          let whole_text = subst (Holds b.raw b.pos) (append_assoc xs ys (b'e' ∷ [])) held in
          let fits : b.pos + length (xs ++ (ys ++ b'e' ∷ [])) ≤ b.length =
            subst (λ (l : List Byte). b.pos + length l ≤ b.length) (append_assoc xs ys (b'e' ∷ []))
              room in
          let looped =
            body-goes sp laws _ blank_frame fs plain fuel k whole_frame ys (b'e' ∷ [])
              (key_first k (text (dict fs)))
              (λ start stop. query-Before n mt query start stop hm hq) b v whole_text fits in
          let (front, back) = Holds-append b.raw b.pos xs (ys ++ b'e' ∷ []) whole_text in
          let body =
            (Holds-append b.raw b.pos (string_text (body_key k)) (text (dict fs)) front).1 in
          let start = b.pos + length (string_text (body_key k)) in
          let stop = start + length (text (dict fs)) in
          let b' : Buffer = record b { pos = stop + length ys } in
          let sizes = length-append xs (ys ++ b'e' ∷ []) in
          let all = length-append xs ys in
          let behind = length-append ys (b'e' ∷ []) in
          let parts = length-append (string_text (body_key k)) (text (dict fs)) in
          let valid : IsReadable b' = record {
            size = v.size;
            filled = v.filled;
            cursor = omega arith;
          } in
          let position : stop + length ys ≡ b.pos + length (xs ++ ys) = omega arith in
          rw (looped, whole start stop)
            (hand_over_lem b' start stop (reads start stop) valid refl (omega arith) body
              ∙ ap (λ (p : ℕ). (some a, record b { pos = p })) position);
    })
