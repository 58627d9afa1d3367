-- ===== src/Krpc/Parse/Receive.antt =====
-- The frame of a message as `krpc::d::krpc` of src/krpc.h reads it.
use Prim.Native.String.{String}
use btdht.Prelude.{
  ℕ, zero, suc, Bool, true, false, ◌&&◌, Option, none, some, List, [], length, if◌then◌else◌,
  get_or, ◌==◌,
}
use btdht.Prelude.Bytes.{Byte, bytes_eq}
use btdht.Prelude.Text.{bytes}
use btdht.Address.{Contact, Transaction}
use btdht.Sp.{Buffer, Sp}
use btdht.Bencode.Stream.{until_zero}
use btdht.Bencode.Decode.{
  Reader, ◌>>=◌, ◌>>◌, return, guard, parse_key, parse_key_value, pair_u32, pair_any, peek,
}
use btdht.Bencode.Values.{if_reads, pair_contact, dict, from_view}
use btdht.Bencode.Offset.{list_wildcard, dict_wildcard}
use btdht.Krpc.Parse.{◌<|>◌, unless}

-- What `krpc` fills in of a `ParseContext`, and from `t` on its own variables. An array is what was
-- read into it; `mark` is `none` where the source has -1.
pub record Frame : Type 0 where
  pub tx : Transaction
  pub msg_type : List Byte
  pub query : List Byte
  pub remote_version : List Byte
  pub read_only : Bool
  pub ip_vote : Option Contact
  pub t : Bool
  pub y : Bool
  pub q : Bool
  pub ip_handled : Bool
  pub v : Bool
  pub mark : Option ℕ
  pub mark_end : ℕ

-- `ParseContext(domain, ctx, in)`
abbrev pub blank_frame : Frame
blank_frame = record {
  tx = record { id = []; length = 0 };
  msg_type = [];
  query = [];
  remote_version = [];
  read_only = false;
  ip_vote = none;
  t = false;
  y = false;
  q = false;
  ip_handled = false;
  v = false;
  mark = none;
  mark_end = 0;
}

-- A call whose result is not looked at.
abbrev pub ignoring : {A : Type 0} → Reader A → Reader (Unit {0})
ignoring m b = (some tt, (m b).1)

-- The cursor.
abbrev pub here : Reader ℕ
here b = (some b.pos, b)

abbrev pub tx_of : List Byte → Transaction
tx_of id = record { id = id; length = length id }

module _ (sp : Sp) where
  -- A body: its key, where it begins, what `skip` passes over, and where it ends.
  abbrev pub body_field : Reader (Unit {0}) → List Byte → Frame → Reader Frame
  body_field skip key s = do
    ignoring (parse_key sp key)
    start ← here
    skip
    end ← here
    return (record s { mark = some start; mark_end = end })

  -- The fields before the body, in the order in which they are tried.
  unfoldable pub known_field : Frame → Reader Frame
  known_field s =
      unless s.t
        (do id ← parse_key_value sp (bytes "t") 32; return (record s { tx = tx_of id; t = true }))
      <|> unless s.y (do
        msg_type ← parse_key_value sp (bytes "y") 16
        return (record s { msg_type = msg_type; y = true }))
      <|> unless s.q (do
        query ← parse_key_value sp (bytes "q") 64
        return (record s { query = query; q = true }))
      <|> unless s.ip_handled (do
        ip ← pair_contact sp (bytes "ip")
        return (record s { ip_vote = some ip; ip_handled = true }))
      <|> unless s.v (do
        v ← parse_key_value sp (bytes "v") 5
        return (record s { remote_version = v; v = true }))
      <|> (do ro ← pair_u32 sp (bytes "ro"); return (record s { read_only = ro == 1 }))

  -- What comes behind them: a body, or any two strings.
  unfoldable pub other_field : ℕ → Frame → Reader Frame
  other_field fuel s b =
      if peek sp (bytes "a") b
      then body_field (dict_wildcard sp fuel) (bytes "a") s b
      else if peek sp (bytes "r") b
      then body_field (dict_wildcard sp fuel) (bytes "r") s b
      else if peek sp (bytes "e") b
      then body_field (list_wildcard sp fuel) (bytes "e") s b
      else (pair_any sp 128 128 >>= λ _. return s) b

  -- From `Lstart` on, until the byte at the cursor is an `e`.
  unfoldable pub frame_loop : ℕ → Frame → Reader Frame
  unfolding known_field other_field
  frame_loop zero s b = (none, b)
  frame_loop (suc n) s b =
      let more = if_reads (known_field s) (frame_loop n) (other_field n s >>= frame_loop n) b in
      if get_or b.raw b.pos 0 == b'e' then (some s, b) else more

  -- `is_query`, `is_reply` and `is_error`
  abbrev pub is_type : String → Frame → Bool
  is_type kind s = bytes_eq (until_zero s.msg_type) (bytes kind)

  -- The fields that each type of message must have.
  unfoldable pub complete : Frame → Bool
  complete s =
      if is_type "e" s
      then s.t
      else if is_type "q" s
      then s.t && s.y && s.q
      else if is_type "r" s
      then s.t && s.y
      else false

  -- The end of `krpc`: `cut b start end` is the constructor of a buffer that takes a part of another.
  -- `handle` has the frame, which the new `ParseContext` copies but for the vote, and a buffer with
  -- the body.
  abbrev pub hand_over :
      {A : Type 0} → (Buffer → ℕ → ℕ → Buffer) → (Frame → Reader A) → Frame → Reader A
  hand_over cut handle s b = elim s.mark [
    | none ↦ (none, b)
    | some start ↦ from_view (handle (record s { ip_vote = none }) (cut b start s.mark_end)).0 b
  ]

  unfoldable pub krpc : {A : Type 0} → (Buffer → ℕ → ℕ → Buffer) → ℕ → (Frame → Reader A) → Reader A
  unfolding frame_loop complete
  krpc cut fuel handle =
      dict sp do s ← frame_loop fuel blank_frame; guard (complete s); hand_over cut handle s
