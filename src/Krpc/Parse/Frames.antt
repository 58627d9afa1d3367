-- ===== src/Krpc/Parse/Frames.antt =====
-- The loop over the fields of a message in `krpc::d::krpc` of src/krpc.h.
use btdht.Prelude.{
  ℕ, suc, ◌+◌, ◌^◌, ◌≤◌, ◌<◌, ◌≡◌, refl, sym, subst, ap, ◌∙◌, false, some, List, [], ◌∷◌, ◌++◌,
  append_assoc, arith, length, length-append,
}
use btdht.Prelude.Bytes.{Byte, bytes_eq, Holds, Holds-append}
use btdht.Prelude.Text.{bytes}
use btdht.Sp.{Buffer, Sp, SpLaws}
use btdht.Bencode.Spec.{string_text}
use btdht.Bencode.Tree.{dict, Fields, text}
use btdht.Bencode.Decode.{and_then, peek}
use btdht.Bencode.Decode.Contract.{IsReadable, Reads, Before, bind-Before}
use btdht.Bencode.Decode.Peeks.{string-inside, peek-Holds}
use btdht.Bencode.Decode.Reads.{parse_key-Reads}
use btdht.Bencode.Decode.Skips.{Skips, bind-Skips, pair_u32-Skips}
use btdht.Bencode.Offset.{dict_wildcard}
use btdht.Bencode.Plain.{HasPlain, rounds}
use btdht.Bencode.Wildcards.{dict_wildcard-Reads}
use btdht.Krpc.Parse.Fields.{past_bytes, past_contact, at_key-Skips}
use btdht.Krpc.Parse.Rounds.{both-Skips}
use btdht.Krpc.Parse.Receive.{Frame, body_field, known_field, other_field, frame_loop}

-- The two keys of a body.
pub data Body : Type 0 where
  arguments reply : Body

abbrev pub body_key : Body → List Byte
body_key arguments = bytes "a"
body_key reply = bytes "r"

abbrev pub marked : Frame → ℕ → ℕ → Frame
marked s start stop = record s { mark = some start; mark_end = stop }

module _ (sp : Sp) (laws : SpLaws sp) where
  pub frame-ends : (n : ℕ) (s : Frame) → Before (frame_loop sp (suc n) s) [] (b'e' ∷ []) s
  unfolding frame_loop
  frame-ends n s = record {
    reads = λ b v h room. rw h.1 (ap (λ (p : ℕ). (some s, record b { pos = p })) (omega arith));
  }

  -- A field that is known is taken, and the loop goes on behind it.
  pub frame-goes :
      (n : ℕ) (s s' r : Frame) (k v ys zs : List Byte)
      → Reads (known_field sp s) (string_text k ++ v) s'
      → Before (frame_loop sp n s') ys zs r
      → Before (frame_loop sp (suc n) s) ((string_text k ++ v) ++ ys) zs r
  unfolding frame_loop
  frame-goes n s s' r k v ys zs e f = record {
    reads = λ b valid h room.
        let xs = string_text k ++ v in
        let found =
          (bind-Before (known_field sp s) (frame_loop sp n) xs ys zs s' r e f).reads b valid h
            room in
        let whole = subst (Holds b.raw b.pos) (append_assoc xs ys zs) h in
        let front = (Holds-append b.raw b.pos xs (ys ++ zs) whole).0 in
        let sum = length-append xs ys in
        let first = e.reads b valid front (omega (arith, length-append (xs ++ ys) zs)) in
        let keyed = subst (Holds b.raw b.pos) (append_assoc (string_text k) v (ys ++ zs)) whole in
        rw (string-inside k (v ++ (ys ++ zs)) b.raw b.pos keyed, first)
          (sym (ap (λ p. and_then p (frame_loop sp n)) first) ∙ found);
  }

  module _ (s : Frame) (key rest : List Byte) (hk : length key < 2 ^ 64) where
    -- No known field has this key.
    abbrev pub IsOther : Type 0
    IsOther =
        (bytes_eq (bytes "t") key ≡ false)
        × (bytes_eq (bytes "y") key ≡ false)
        × (bytes_eq (bytes "q") key ≡ false)
        × (bytes_eq (bytes "ip") key ≡ false)
        × (bytes_eq (bytes "v") key ≡ false)
        × (bytes_eq (bytes "ro") key ≡ false)

    pub known_field-Skips : IsOther → Skips (known_field sp s) (string_text key ++ rest)
    unfolding known_field
    known_field-Skips o =
        both-Skips _ _ _ (past_bytes sp _ _ (at_key-Skips sp laws key hk _ _ o.0) _ _ _) (
          both-Skips _ _ _ (past_bytes sp _ _ (at_key-Skips sp laws key hk _ _ o.1) _ _ _) (
            both-Skips _ _ _ (past_bytes sp _ _ (at_key-Skips sp laws key hk _ _ o.2) _ _ _) (
              both-Skips _ _ _ (past_contact sp _ _ (at_key-Skips sp laws key hk _ _ o.3) _ _) (
                both-Skips _ _ _ (past_bytes sp _ _ (at_key-Skips sp laws key hk _ _ o.4) _ _ _) (
                  bind-Skips _ _ _
                    (pair_u32-Skips sp _ _ (at_key-Skips sp laws key hk _ _ o.5)))))))

  module _ (n : ℕ) (s : Frame) (fs : Fields) (plain : HasPlain fs)
      (fuel : rounds (dict fs) ≤ n) where
    -- The body is passed over, and where it begins and ends is kept.
    body_marked :
        (k : List Byte)
        → length k < 2 ^ 64
        → (b : Buffer) → IsReadable b
        → Holds b.raw b.pos (string_text k ++ text (dict fs))
        → b.pos + length (string_text k ++ text (dict fs)) ≤ b.length
        → body_field sp (dict_wildcard sp n) k s b ≡ (
          some (
              marked s
                (b.pos + length (string_text k))
                (b.pos + length (string_text k) + length (text (dict fs)))),
          record b { pos = b.pos + length (string_text k) + length (text (dict fs)) },
        )
    body_marked k hk b v h room =
        let (front, back) = Holds-append b.raw b.pos (string_text k) (text (dict fs)) h in
        let sum = length-append (string_text k) (text (dict fs)) in
        let b' : Buffer = record b { pos = b.pos + length (string_text k) } in
        let valid : IsReadable b' = record {
          size = v.size;
          filled = v.filled;
          cursor = omega arith;
        } in
        let passes = dict_wildcard-Reads sp laws fs n plain fuel in
        rw
          (
            (parse_key-Reads sp laws k hk).reads b v front (omega arith),
            passes.reads b' valid back (omega arith),
          )
          refl

    other_field_lem :
        (k : Body) (b : Buffer)
        → IsReadable b
        → Holds b.raw b.pos (string_text (body_key k) ++ text (dict fs))
        → b.pos + length (string_text (body_key k) ++ text (dict fs)) ≤ b.length
        → other_field sp n s b ≡ body_field sp (dict_wildcard sp n) (body_key k) s b
    unfolding other_field
    other_field_lem k b v h room =
        let (front, back) =
          Holds-append b.raw b.pos (string_text (body_key k)) (text (dict fs)) h in
        let sum = length-append (string_text (body_key k)) (text (dict fs)) in
        by_key k
          (λ asked small. peek-Holds sp laws asked (body_key k) b small v front (omega arith))
      where
        by_key :
            (k : Body)
            → ((asked : List Byte)
                → length (body_key k) < 2 ^ 64
                → peek sp asked b ≡ bytes_eq asked (body_key k))
            → other_field sp n s b ≡ body_field sp (dict_wildcard sp n) (body_key k) s b
        by_key arguments e = rw (e (bytes "a") (omega arith)) refl
        by_key reply e = rw (e (bytes "a") (omega arith), e (bytes "r") (omega arith)) refl

    pub body-goes :
        (k : Body) (r : ℕ → ℕ → Frame) (ys zs : List Byte)
        → Skips (known_field sp s) (string_text (body_key k) ++ text (dict fs))
        → ((start stop : ℕ) → Before (frame_loop sp n (marked s start stop)) ys zs (r start stop))
        → (b : Buffer) → IsReadable b
        → Holds b.raw b.pos ((string_text (body_key k) ++ text (dict fs)) ++ (ys ++ zs))
        → b.pos + length ((string_text (body_key k) ++ text (dict fs)) ++ (ys ++ zs)) ≤ b.length
        → frame_loop sp (suc n) s b ≡ (
          some (
              r
                (b.pos + length (string_text (body_key k)))
                (b.pos + length (string_text (body_key k)) + length (text (dict fs)))),
          record b {
            pos = b.pos + length (string_text (body_key k)) + length (text (dict fs)) + length ys;
          },
        )
    unfolding frame_loop
    body-goes k r ys zs other next b v held room =
        let xs = string_text (body_key k) ++ text (dict fs) in
        let (front, back) = Holds-append b.raw b.pos xs (ys ++ zs) held in
        let all = length-append xs (ys ++ zs) in
        let parts = length-append (string_text (body_key k)) (text (dict fs)) in
        let start = b.pos + length (string_text (body_key k)) in
        let stop = start + length (text (dict fs)) in
        let b' : Buffer = record b { pos = stop } in
        let valid : IsReadable b' = record {
          size = v.size;
          filled = v.filled;
          cursor = omega arith;
        } in
        let there : Holds b.raw stop (ys ++ zs) =
          subst (λ (p : ℕ). Holds b.raw p (ys ++ zs)) (omega arith) back in
        let inside = string-inside (body_key k) (text (dict fs) ++ (ys ++ zs)) b.raw b.pos (
          subst (Holds b.raw b.pos)
            (append_assoc (string_text (body_key k)) (text (dict fs)) (ys ++ zs)) held) in
        rw
          (
            inside,
            other.skips b v front (omega arith),
            other_field_lem k b v front (omega arith),
            body_marked (body_key k) (small k) b v front (omega arith),
          )
          ((next start stop).reads b' valid there (omega arith))
      where
        small : (k : Body) → length (body_key k) < 2 ^ 64
        small arguments = omega arith
        small reply = omega arith
