-- ===== src/Krpc.antt =====
-- The messages of src/krpc_shared.h: the frame that every request, response and error has.
pub mod Frame
pub mod Fields
pub mod Request
pub mod Response
pub mod Private
pub mod Parse
pub mod Query
pub mod RoundTrip
pub mod Tests
use btdht.Prelude.{Option, none, some, List, [], ◌∷◌, take}
use btdht.Prelude.Bytes.{Byte}
use btdht.Prelude.Text.{bytes}
use btdht.Address.{Transaction}
use btdht.Sp.{Sp}
use btdht.Bencode.Encode.{Writer, ◌then◌, done, encode_raw, dict, pair_bytes, pair_str}

-- `if (query)`
abbrev pub pair_query : Sp → Option (List Byte) → Writer
pair_query sp none = done
pair_query sp (some query) = pair_str sp (bytes "q") query

module _ (sp : Sp) where
  -- `message`; a null `query` is `none`. The callback `f` writes the body.
  unfoldable pub message : Transaction → List Byte → Option (List Byte) → Writer → Writer
  message t mt query f = dict sp (
      f
      then pair_query sp query
      then pair_bytes sp (bytes "t") (take t.length t.id)
      then pair_bytes sp (bytes "v") (bytes "sp02")
      then pair_str sp (bytes "y") mt
      then done)

  unfoldable pub resp : Transaction → Writer → Writer
  resp t f = message t (bytes "r") none (encode_raw sp (bytes "r") then dict sp f)

  unfoldable pub req : Transaction → List Byte → Writer → Writer
  req t query f = message t (bytes "q") (some query) (encode_raw sp (bytes "a") then dict sp f)

  unfoldable pub err : Transaction → Writer → Writer
  err t f = message t (bytes "e") none (encode_raw sp (bytes "e") then f)
