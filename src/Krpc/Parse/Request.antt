-- ===== src/Krpc/Parse/Request.antt =====
-- The parsers of requests of src/krpc_parse.cpp. A record holds what the parser fills in and, from
-- `b_id` on, which fields it has seen. `insert` is that of an array of texts.
use btdht.Prelude.{ℕ, Bool, true, ◌&&◌, Option, some, List, [], ◌∷◌, if◌then◌else◌}
use btdht.Prelude.Bytes.{Byte, bytes_eq}
use btdht.Prelude.Text.{bytes}
use btdht.Address.{Contact, Token}
use btdht.Id.{Key}
use btdht.Sp.{Sp}
use btdht.Bencode.Decode.{Reader, ◌>>=◌, ◌>>◌, return, guard, pair_bool, pair_u16, pair_value_ref}
use btdht.Bencode.Values.{pair_key, pair_token, pair_contact, dict}
use btdht.Bencode.Generic
use btdht.Bencode.Generic.{Front}
use btdht.Krpc.Request.{Texts}
use btdht.Krpc.Parse.{◌<|>◌, unless, again, any_field}

pub record PingRequest : Type 0 where
  pub sender : Key
  pub ip_vote : Option Contact
  pub b_id : Bool
  pub b_ip : Bool

pub record FindNodeRequest : Type 0 where
  pub sender : Key
  pub target : Key
  pub n4 : Bool
  pub n6 : Bool
  pub b_id : Bool
  pub b_t : Bool
  pub b_want : Bool

pub record GetPeersRequest : Type 0 where
  pub sender : Key
  pub infohash : Key
  pub noseed : Option Bool
  pub scrape : Bool
  pub bootstrap : Bool
  pub n4 : Bool
  pub n6 : Bool
  pub b_id : Bool
  pub b_ih : Bool
  pub b_ns : Bool
  pub b_sc : Bool
  pub b_bs : Bool
  pub b_want : Bool

pub record AnnouncePeerRequest : Type 0 where
  pub sender : Key
  pub implied_port : Bool
  pub infohash : Key
  pub port : ℕ
  pub token : Token
  pub seed : Bool
  pub name : Option (List Byte)
  pub b_id : Bool
  pub b_ip : Bool
  pub b_ih : Bool
  pub b_p : Bool
  pub b_t : Bool
  pub b_s : Bool
  pub b_n : Bool

pub record SampleInfohashesRequest : Type 0 where
  pub sender : Key
  pub target : Key
  pub n4 : Bool
  pub n6 : Bool
  pub b_id : Bool
  pub b_target : Bool
  pub b_want : Bool

-- The loop over `want`, for one of the flags: whether a text of `want` is `w`.
abbrev pub wanted : List Byte → Texts → Bool → Bool
wanted w [] flag = flag
wanted w (x ∷ xs) flag = wanted w xs (if bytes_eq x w then true else flag)

module _ (sp : Sp) where
  unfoldable pub ping_round : ℕ → PingRequest → Reader PingRequest
  ping_round fuel s =
      unless s.b_id
        (do id ← pair_key sp (bytes "id") s.sender; return (record s { sender = id; b_id = true }))
      <|> unless s.b_ip (do
        ip ← pair_contact sp (bytes "ip")
        return (record s { ip_vote = some ip; b_ip = true }))
      <|> any_field sp fuel s

  unfoldable pub parse_ping_request : ℕ → PingRequest → Reader PingRequest
  unfolding ping_round
  parse_ping_request fuel out =
      dict sp do s ← again fuel (ping_round fuel) out; guard s.b_id; return s

  unfoldable pub announce_peer_round : ℕ → AnnouncePeerRequest → Reader AnnouncePeerRequest
  announce_peer_round fuel s =
      unless s.b_id
        (do id ← pair_key sp (bytes "id") s.sender; return (record s { sender = id; b_id = true }))
      <|> unless s.b_ip (do
        implied ← pair_bool sp (bytes "implied_port")
        return (record s { implied_port = implied; b_ip = true }))
      <|> unless s.b_ih (do
        ih ← pair_key sp (bytes "info_hash") s.infohash
        return (record s { infohash = ih; b_ih = true }))
      <|> unless s.b_p
          (do port ← pair_u16 sp (bytes "port"); return (record s { port = port; b_p = true }))
      <|> unless s.b_t (do
        token ← pair_token sp (bytes "token")
        return (record s { token = token; b_t = true }))
      <|> unless s.b_s
          (do seed ← pair_bool sp (bytes "seed"); return (record s { seed = seed; b_s = true }))
      <|> unless s.b_n (do
        name ← pair_value_ref sp (bytes "name")
        return (record s { name = some name; b_n = true }))
      <|> any_field sp fuel s

  unfoldable pub parse_announce_peer_request : ℕ → AnnouncePeerRequest → Reader AnnouncePeerRequest
  unfolding announce_peer_round
  parse_announce_peer_request fuel out =
      dict sp do
        s ← again fuel (announce_peer_round fuel) out
        guard (s.b_id && s.b_ih && s.b_t)
        return s

  module _ (front : Front) (insert : Texts → List Byte → Texts) where
    abbrev pub pair_want : ℕ → Reader Texts
    pair_want fuel = Generic.pair_strings sp front insert fuel (bytes "want")

    unfoldable pub find_node_round : ℕ → FindNodeRequest → Reader FindNodeRequest
    find_node_round fuel s =
        unless s.b_id (do
          id ← pair_key sp (bytes "id") s.sender
          return (record s { sender = id; b_id = true }))
        <|> unless s.b_t (do
          target ← pair_key sp (bytes "target") s.target
          return (record s { target = target; b_t = true }))
        <|> unless s.b_want (do
          want ← pair_want fuel
          return (record s {
            n4 = wanted (bytes "n4") want s.n4;
            n6 = wanted (bytes "n6") want s.n6;
            b_want = true;
          }))
        <|> any_field sp fuel s

    unfoldable pub parse_find_node_request : ℕ → FindNodeRequest → Reader FindNodeRequest
    unfolding find_node_round
    parse_find_node_request fuel out = dict sp do
      s ← again fuel (find_node_round fuel) out
      guard (s.b_id && s.b_t)
      return (if s.b_want then s else record s { n4 = true })

    unfoldable pub get_peers_round : ℕ → GetPeersRequest → Reader GetPeersRequest
    get_peers_round fuel s =
        unless s.b_id (do
          id ← pair_key sp (bytes "id") s.sender
          return (record s { sender = id; b_id = true }))
        <|> unless s.b_ih (do
          ih ← pair_key sp (bytes "info_hash") s.infohash
          return (record s { infohash = ih; b_ih = true }))
        <|> unless s.b_ns (do
          noseed ← pair_bool sp (bytes "noseed")
          return (record s { noseed = some noseed; b_ns = true }))
        <|> unless s.b_sc (do
          scrape ← pair_bool sp (bytes "scrape")
          return (record s { scrape = scrape; b_sc = true }))
        <|> unless s.b_want (do
          want ← pair_want fuel
          return (record s {
            n4 = wanted (bytes "n4") want s.n4;
            n6 = wanted (bytes "n6") want s.n6;
            b_want = true;
          }))
        <|> unless s.b_bs
            (do bs ← pair_bool sp (bytes "bs"); return (record s { bootstrap = bs; b_bs = true }))
        <|> any_field sp fuel s

    unfoldable pub parse_get_peers_request : ℕ → GetPeersRequest → Reader GetPeersRequest
    unfolding get_peers_round
    parse_get_peers_request fuel out = dict sp do
      s ← again fuel (get_peers_round fuel) out
      guard (s.b_id && s.b_ih)
      return (if s.b_want then s else record s { n4 = true })

    unfoldable pub sample_infohashes_round :
        ℕ → SampleInfohashesRequest → Reader SampleInfohashesRequest
    sample_infohashes_round fuel s =
        unless s.b_id (do
          id ← pair_key sp (bytes "id") s.sender
          return (record s { sender = id; b_id = true }))
        <|> unless s.b_target (do
          target ← pair_key sp (bytes "target") s.target
          return (record s { target = target; b_target = true }))
        <|> unless s.b_want (do
          want ← pair_want fuel
          return (record s {
            n4 = wanted (bytes "n4") want s.n4;
            n6 = wanted (bytes "n6") want s.n6;
            b_want = true;
          }))
        <|> any_field sp fuel s

    unfoldable pub parse_sample_infohashes_request :
        ℕ → SampleInfohashesRequest → Reader SampleInfohashesRequest
    unfolding sample_infohashes_round
    parse_sample_infohashes_request fuel out = dict sp do
      s ← again fuel (sample_infohashes_round fuel) out
      guard s.b_id
      return (if s.b_want then s else record s { n4 = true })
