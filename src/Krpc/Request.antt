-- ===== src/Krpc/Request.antt =====
-- The requests of src/krpc.cpp. `sp::UinStaticArray` is not in the repository: `insert` into an
-- array of two texts is the parameter `insert`, on the texts that the array holds.
use btdht.Prelude.{
  ℕ, ◌+◌, ◌≤◌, ◌≡◌, Bool, true, false, List, [], ◌∷◌, ◌++◌, arith, if◌then◌else◌, length,
}
use btdht.Prelude.Bytes.{Byte}
use btdht.Prelude.Text.{bytes}
use btdht.Id.{Key}
use btdht.Address.{Transaction}
use btdht.Sp.{Sp, SpLaws}
use btdht.Bencode.Spec.{Encodes}
use btdht.Bencode.Tree.{nat, str, list, Trees, nil, cons, Fields, end, field, text, field_texts}
use btdht.Bencode.Encode
use btdht.Bencode.Encode.{Writer, ◌then◌, done}
use btdht.Bencode.Encode.Contract.{Emits}
use btdht.Bencode.Stream
use btdht.Bencode.Stream.{Stream, StreamLaws}
use btdht.Bencode.Stream.Pairs.{flag}
use btdht.Krpc.{req}
use btdht.Krpc.Fields.{bytes-field, nat-field, flag-field, strings-field, io_flag-field, end-Emits}
use btdht.Krpc.Frame.{req_tree, req-Encodes}

abbrev pub Texts : Type 0
Texts = List (List Byte)

-- What `insert` does while there is room.
abbrev pub Inserts : (Texts → List Byte → Texts) → Type 0
Inserts insert = (xs : Texts) (x : List Byte) → length xs + 1 ≤ 2 → insert xs x ≡ xs ++ x ∷ []

-- `want`, after both conditions.
abbrev pub want_of : (Texts → List Byte → Texts) → Bool → Bool → Texts
want_of insert n4 n6 =
    let want = if n4 then insert [] (bytes "n4") else [] in
    if n6 then insert want (bytes "n6") else want

module _ (sp : Sp) (io : Stream) (insert : Texts → List Byte → Texts) where
  pub ping : Transaction → Key → Writer
  ping t send = req sp t (bytes "ping") (Encode.pair_bytes sp (bytes "id") send then done)

  pub find_node : Transaction → Key → Key → Bool → Bool → Writer
  find_node t self search n4 n6 = req sp t (bytes "find_node") (
      Encode.pair_bytes sp (bytes "id") self
      then Encode.pair_bytes sp (bytes "target") search
      then Stream.pair_strings io (bytes "want") (want_of insert n4 n6)
      then done)

  pub get_peers : Transaction → Key → Key → Bool → Bool → Writer
  get_peers t id infohash n4 n6 = req sp t (bytes "get_peers") (
      Encode.pair_bytes sp (bytes "id") id
      then Encode.pair_bytes sp (bytes "info_hash") infohash
      then Stream.pair_strings io (bytes "want") (want_of insert n4 n6)
      then done)

  pub get_peers_scrape : Transaction → Key → Key → Bool → Bool → Bool → Writer
  get_peers_scrape t id infohash n4 n6 scrape = req sp t (bytes "get_peers") (
      Encode.pair_bytes sp (bytes "id") id
      then Encode.pair_bytes sp (bytes "info_hash") infohash
      then Stream.pair_strings io (bytes "want") (want_of insert n4 n6)
      then Stream.pair_bool io (bytes "scrape") scrape
      then done)

  -- `token` is the first `length` bytes of the token.
  pub announce_peer : Transaction → Key → Bool → Key → ℕ → List Byte → Writer
  announce_peer t self implied_port infohash port token = req sp t (bytes "announce_peer") (
      Encode.pair_bytes sp (bytes "id") self
      then Encode.pair_bool sp (bytes "implied_port") implied_port
      then Encode.pair_bytes sp (bytes "info_hash") infohash
      then Encode.pair_uint sp (bytes "port") port
      then Encode.pair_bytes sp (bytes "token") token
      then done)

  pub sample_infohashes : Transaction → Key → Key → Bool → Bool → Writer
  sample_infohashes t self target n4 n6 = req sp t (bytes "sample_infohashes") (
      Encode.pair_bytes sp (bytes "id") self
      then Encode.pair_bytes sp (bytes "target") target
      then Stream.pair_strings io (bytes "want") (want_of insert n4 n6)
      then done)

-- What each request carries.
abbrev pub want_trees : Bool → Bool → Trees
want_trees true true = cons (str (bytes "n4")) (cons (str (bytes "n6")) nil)
want_trees true false = cons (str (bytes "n4")) nil
want_trees false true = cons (str (bytes "n6")) nil
want_trees false false = nil

abbrev pub want_fields : Bool → Bool → Fields → Fields
want_fields n4 n6 fs = field (bytes "want") (list (want_trees n4 n6)) fs

abbrev pub searching : List Byte → Key → Key → Bool → Bool → Fields → Fields
searching k id target n4 n6 fs =
    field (bytes "id") (str id) (field k (str target) (want_fields n4 n6 fs))

abbrev pub announcing : Key → Bool → Key → ℕ → List Byte → Fields
announcing self implied_port infohash port token = field (bytes "id") (str self) (
    field (bytes "implied_port") (flag implied_port) (
      field (bytes "info_hash") (str infohash)
        (field (bytes "port") (nat port) (field (bytes "token") (str token) end))))

module _ (sp : Sp) (laws : SpLaws sp) (io : Stream) (streams : StreamLaws io) where
  module _ (insert : Texts → List Byte → Texts) (inserts : Inserts insert) (rest : Writer)
      (fs : Fields) where
    want-Emits :
        (n4 n6 : Bool)
        → Emits rest (field_texts fs)
        → Emits
            (Stream.pair_strings io (bytes "want") (want_of insert n4 n6) then rest)
            (field_texts (want_fields n4 n6 fs))
    want-Emits true true e =
        rw
          (
            inserts [] (bytes "n4") (omega arith),
            inserts (bytes "n4" ∷ []) (bytes "n6") (omega arith),
          )
          (strings-field io streams rest fs e (bytes "want") (bytes "n4" ∷ bytes "n6" ∷ []))
    want-Emits true false e =
        rw (inserts [] (bytes "n4") (omega arith))
          (strings-field io streams rest fs e (bytes "want") (bytes "n4" ∷ []))
    want-Emits false true e =
        rw (inserts [] (bytes "n6") (omega arith))
          (strings-field io streams rest fs e (bytes "want") (bytes "n6" ∷ []))
    want-Emits false false e = strings-field io streams rest fs e (bytes "want") []

    searching-Emits :
        (k : List Byte) (id target : Key) (n4 n6 : Bool)
        → Emits rest (field_texts fs)
        → Emits
            (Encode.pair_bytes sp (bytes "id") id
              then Encode.pair_bytes sp k target
              then Stream.pair_strings io (bytes "want") (want_of insert n4 n6)
              then rest)
            (field_texts (searching k id target n4 n6 fs))
    searching-Emits k id target n4 n6 e =
        bytes-field sp laws _ (field k (str target) (want_fields n4 n6 fs))
          (bytes-field sp laws _ (want_fields n4 n6 fs) (want-Emits n4 n6 e) k target) (bytes "id")
          id

  announcing-Emits :
      (self infohash : Key) (implied_port : Bool) (port : ℕ) (token : List Byte)
      → Emits
          (Encode.pair_bytes sp (bytes "id") self
            then Encode.pair_bool sp (bytes "implied_port") implied_port
            then Encode.pair_bytes sp (bytes "info_hash") infohash
            then Encode.pair_uint sp (bytes "port") port
            then Encode.pair_bytes sp (bytes "token") token
            then done)
          (field_texts (announcing self implied_port infohash port token))
  unfolding text
  announcing-Emits self infohash implied_port port token =
      let tokens = field (bytes "token") (str token) end in
      let ports = field (bytes "port") (nat port) tokens in
      let hashes = field (bytes "info_hash") (str infohash) ports in
      bytes-field sp laws _ (field (bytes "implied_port") (flag implied_port) hashes)
        (flag-field sp laws _ hashes
          (bytes-field sp laws _ ports
            (nat-field sp laws _ tokens
              (bytes-field sp laws done end end-Emits (bytes "token") token) (bytes "port") port)
            (bytes "info_hash") infohash)
          (bytes "implied_port") implied_port)
        (bytes "id") self

  -- Every request is written whole or not at all: the query's name, its arguments, the
  -- transaction and the version, if `insert` appends to an array with room.
  pub requests-Encodes :
      (insert : Texts → List Byte → Texts)
      → Inserts insert
      → (t : Transaction) (id target : Key) (n4 n6 scrape : Bool) (port : ℕ) (token : List Byte)
      → Encodes
          (ping sp io insert t id)
          (text (req_tree t (bytes "ping") (field (bytes "id") (str id) end)))
        × Encodes
            (find_node sp io insert t id target n4 n6)
            (text (req_tree t (bytes "find_node") (searching (bytes "target") id target n4 n6 end)))
        × Encodes (get_peers sp io insert t id target n4 n6) (
            text
              (req_tree t (bytes "get_peers") (searching (bytes "info_hash") id target n4 n6 end)))
        × Encodes (get_peers_scrape sp io insert t id target n4 n6 scrape) (
            text (
              req_tree t (bytes "get_peers") (
                searching
                  (bytes "info_hash")
                  id
                  target
                  n4
                  n6
                  (field (bytes "scrape") (flag scrape) end))))
        × Encodes
            (announce_peer sp io insert t id scrape target port token)
            (text (req_tree t (bytes "announce_peer") (announcing id scrape target port token)))
        × Encodes (sample_infohashes sp io insert t id target n4 n6) (
            text (
              req_tree t
                (bytes "sample_infohashes")
                (searching (bytes "target") id target n4 n6 end)))
  unfolding ping find_node get_peers get_peers_scrape announce_peer sample_infohashes
  requests-Encodes insert inserts t id target n4 n6 scrape port token = (
    req-Encodes sp laws t _ _ _ (bytes-field sp laws done end end-Emits (bytes "id") id),
    req-Encodes sp laws t _ _ _
        (searching-Emits insert inserts done end (bytes "target") id target n4 n6 end-Emits),
    req-Encodes sp laws t _ _ _
        (searching-Emits insert inserts done end (bytes "info_hash") id target n4 n6 end-Emits),
    req-Encodes sp laws t _ _ _ (
        searching-Emits insert inserts _ (field (bytes "scrape") (flag scrape) end)
          (bytes "info_hash") id target n4 n6
          (io_flag-field io streams done end end-Emits (bytes "scrape") scrape)),
    req-Encodes sp laws t _ _ _ (announcing-Emits id target scrape port token),
    req-Encodes sp laws t _ _ _
        (searching-Emits insert inserts done end (bytes "target") id target n4 n6 end-Emits),
  )
