-- ===== src/Krpc/Parse/Response.antt =====
-- The parsers of responses of src/krpc_parse.cpp. A record holds what the parser fills in and, from
-- `b_id` on, which fields it has seen. `insert`, `insert_node` and `insert_peer` are those of arrays.
use btdht.Prelude.{ℕ, zero, suc, Bool, true, false, ◌&&◌, ◌||◌, Option, some, List}
use btdht.Prelude.Text.{bytes}
use btdht.Address.{Contact, IdContact, Token}
use btdht.Id.{Key}
use btdht.Sp.{Sp}
use btdht.Bencode.Decode.{Reader, ◌>>=◌, ◌>>◌, return, guard, parse_key, pair_u64, pair_u32}
use btdht.Bencode.Values.{if_reads, pair_key, pair_token, pair_contact, dict}
use btdht.Bencode.Generic
use btdht.Bencode.Generic.{Front}
use btdht.Bencode.Offset.{nodes, peers}
use btdht.Krpc.Parse.{◌<|>◌, unless, again, any_field}

pub record PingResponse : Type 0 where
  pub sender : Key
  pub ip_vote : Option Contact
  pub b_id : Bool
  pub b_ip : Bool
  pub b_p : Bool

pub record FindNodeResponse : Type 0 where
  pub id : Key
  pub token : Token
  pub nodes : List IdContact
  pub ip_vote : Option Contact
  pub b_id : Bool
  pub b_n : Bool
  pub b_p : Bool
  pub b_ip : Bool
  pub b_t : Bool

pub record GetPeersResponse : Type 0 where
  pub id : Key
  pub token : Token
  pub values : List Contact
  pub nodes : List IdContact
  pub b_id : Bool
  pub b_t : Bool
  pub b_n : Bool
  pub b_v : Bool
  pub b_p : Bool

pub record AnnouncePeerResponse : Type 0 where
  pub id : Key
  pub b_id : Bool

pub record SampleInfohashesResponse : Type 0 where
  pub id : Key
  pub interval : ℕ
  pub nodes : List (Key × Contact)
  pub num : ℕ
  pub samples : List Key
  pub p : ℕ
  pub b_id : Bool
  pub b_interval : Bool
  pub b_nodes : Bool
  pub b_num : Bool
  pub b_samples : Bool
  pub b_p : Bool
  pub b_ip : Bool

module _ (sp : Sp) where
  unfoldable pub ping_round : ℕ → PingResponse → Reader PingResponse
  ping_round fuel s =
      unless s.b_id
        (do id ← pair_key sp (bytes "id") s.sender; return (record s { sender = id; b_id = true }))
      <|> unless s.b_ip (do
        ip ← pair_contact sp (bytes "ip")
        return (record s { ip_vote = some ip; b_ip = true }))
      <|> unless s.b_p (pair_u64 sp (bytes "p") >>= λ port_param. return (record s { b_p = true }))
      <|> any_field sp fuel s

  unfoldable pub parse_ping_response : ℕ → PingResponse → Reader PingResponse
  unfolding ping_round
  parse_ping_response fuel out =
      dict sp do s ← again fuel (ping_round fuel) out; guard s.b_id; return s

  module _ (insert_node : List IdContact → IdContact → List IdContact) where
    unfoldable pub find_node_round : ℕ → FindNodeResponse → Reader FindNodeResponse
    find_node_round fuel s =
        unless s.b_id
          (do id ← pair_key sp (bytes "id") s.id; return (record s { id = id; b_id = true }))
        <|> unless s.b_n (do
          found ← nodes sp insert_node fuel (bytes "nodes")
          return (record s { nodes = found; b_n = true }))
        <|> unless s.b_t (do
          token ← pair_token sp (bytes "token")
          return (record s { token = token; b_t = true }))
        <|> unless s.b_p
            (pair_u64 sp (bytes "p") >>= λ port_param. return (record s { b_p = true }))
        <|> unless s.b_ip (do
          ip ← pair_contact sp (bytes "ip")
          return (record s { ip_vote = some ip; b_ip = true }))
        <|> any_field sp fuel s

    unfoldable pub parse_find_node_response : ℕ → FindNodeResponse → Reader FindNodeResponse
    unfolding find_node_round
    parse_find_node_response fuel out =
        dict sp do s ← again fuel (find_node_round fuel) out; guard s.b_id; return s

    module _ (insert_peer : List Contact → Contact → List Contact) where
      unfoldable pub get_peers_round : ℕ → GetPeersResponse → Reader GetPeersResponse
      get_peers_round fuel s =
          unless s.b_id
            (do id ← pair_key sp (bytes "id") s.id; return (record s { id = id; b_id = true }))
          <|> unless s.b_t (do
            token ← pair_token sp (bytes "token")
            return (record s { token = token; b_t = true }))
          <|> unless s.b_p
              (pair_u64 sp (bytes "p") >>= λ port_param. return (record s { b_p = true }))
          <|> unless s.b_n (do
            found ← nodes sp insert_node fuel (bytes "nodes")
            return (record s { nodes = found; b_n = true }))
          <|> unless s.b_v (do
            found ← peers sp insert_peer fuel (bytes "values")
            return (record s { values = found; b_v = true }))
          <|> any_field sp fuel s

      unfoldable pub parse_get_peers_response : ℕ → GetPeersResponse → Reader GetPeersResponse
      unfolding get_peers_round
      parse_get_peers_response fuel out =
          dict sp do
            s ← again fuel (get_peers_round fuel) out
            guard (s.b_id && (s.b_n || s.b_v))
            return s

  -- The condition here does not ask whether the id was seen.
  unfoldable pub announce_peer_round : ℕ → AnnouncePeerResponse → Reader AnnouncePeerResponse
  announce_peer_round fuel s =
      (do id ← pair_key sp (bytes "id") s.id; return (record s { id = id; b_id = true }))
      <|> any_field sp fuel s

  unfoldable pub parse_announce_peer_response :
      ℕ → AnnouncePeerResponse → Reader AnnouncePeerResponse
  unfolding announce_peer_round
  parse_announce_peer_response fuel out =
      dict sp do s ← again fuel (announce_peer_round fuel) out; guard s.b_id; return s

  module _ (front : Front)
      (insert_node : List (Key × Contact) → Key × Contact → List (Key × Contact))
      (insert_key : List Key → Key → List Key) where
    -- What a round does: it goes back to the label with a new state, ends the loop, or gives back `false`.
    pub data Round : Type 0 where
      goes : SampleInfohashesResponse → Round
      ends : Round
      fails : Round

    -- Where a value does not follow its key, the parser gives back `false`.
    abbrev pub value_or_fail :
        {A : Type 0} → Reader A → (A → SampleInfohashesResponse) → Reader Round
    value_or_fail m f = if_reads m (λ a. return (goes (f a))) (return fails)

    unfoldable pub sample_infohashes_round : ℕ → SampleInfohashesResponse → Reader Round
    sample_infohashes_round fuel s =
        unless s.b_id
          (do id ← pair_key sp (bytes "id") s.id; return (goes (record s { id = id; b_id = true })))
        <|> unless s.b_interval (do
          interval ← pair_u32 sp (bytes "interval")
          return (goes (record s { interval = interval; b_interval = true })))
        <|> (unless s.b_nodes (parse_key sp (bytes "nodes"))
            >> value_or_fail (Generic.value_compact_nodes sp front fuel insert_node)
                (λ ns. record s { nodes = ns; b_nodes = true }))
        <|> unless s.b_num (do
          num ← pair_u32 sp (bytes "num")
          return (goes (record s { num = num; b_num = true })))
        <|> unless s.b_p
            (do p ← pair_u32 sp (bytes "p"); return (goes (record s { p = p; b_p = true })))
        <|> unless s.b_ip
            (do ip ← pair_contact sp (bytes "ip"); return (goes (record s { b_ip = true })))
        <|> (unless s.b_samples (parse_key sp (bytes "samples"))
            >> value_or_fail (Generic.value_compact sp front fuel insert_key)
                (λ ks. record s { samples = ks; b_samples = true }))
        <|> any_field sp fuel (goes s)
        <|> return ends

    unfoldable pub sample_infohashes_loop :
        ℕ → ℕ → SampleInfohashesResponse → Reader SampleInfohashesResponse
    unfolding sample_infohashes_round
    sample_infohashes_loop fuel zero s = guard false >> return s
    sample_infohashes_loop fuel (suc n) s = sample_infohashes_round fuel s >>= λ r. elim r [
      | goes s' ↦ sample_infohashes_loop fuel n s'
      | ends ↦ return s
      | fails ↦ guard false >> return s
    ]

    unfoldable pub parse_sample_infohashes_response :
        ℕ → SampleInfohashesResponse → Reader SampleInfohashesResponse
    unfolding sample_infohashes_loop
    parse_sample_infohashes_response fuel out = dict sp (sample_infohashes_loop fuel fuel out)
