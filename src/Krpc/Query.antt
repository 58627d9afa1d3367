-- ===== src/Krpc/Query.antt =====
-- A request as the one node has it and as the other does: what src/krpc.cpp writes of it, and what the
-- parsers of src/krpc_parse.cpp make of that.
use btdht.Prelude.{ℕ, ◌^◌, ◌≤◌, ◌<◌, ◌≡◌, Bool, true, List, length}
use btdht.Prelude.Bytes.{Byte}
use btdht.Prelude.Text.{bytes}
use btdht.Id.{Key}
use btdht.Address.{Transaction}
use btdht.Sp.{Sp}
use btdht.Bencode.Tree.{str, Fields, end, field}
use btdht.Bencode.Stream.{Stream}
use btdht.Bencode.Stream.Pairs.{flag}
use btdht.Bencode.Encode.{Writer}
use btdht.Bencode.Decode.{Reader, ◌>>=◌, return}
use btdht.Bencode.Generic.{Front}
use btdht.Krpc.Request
use btdht.Krpc.Request.{Texts, Inserts, want_trees, searching, announcing, requests-Encodes}
use btdht.Krpc.Parse.Request.{
  PingRequest, FindNodeRequest, GetPeersRequest, AnnouncePeerRequest, SampleInfohashesRequest,
  parse_ping_request, parse_find_node_request, parse_get_peers_request, parse_announce_peer_request,
  parse_sample_infohashes_request,
}
use btdht.Krpc.Parse.Fields.{enough, token_of}
use btdht.Krpc.Parse.Correct.{blank_ping, blank_announce}
use btdht.Krpc.Parse.Searches.{blank_find_node, blank_sample}
use btdht.Krpc.Parse.Peers.{blank_get_peers}
use btdht.Krpc.Parse.Receive.{Frame}

-- A request that a node sends.
pub data Query : Type 0 where
  ping : Key → Query
  find_node : Key → Key → Bool → Bool → Query
  get_peers : Key → Key → Bool → Bool → Query
  get_peers_scrape : Key → Key → Bool → Bool → Bool → Query
  announce_peer : Key → Key → Bool → ℕ → List Byte → Query
  sample_infohashes : Key → Key → Bool → Bool → Query

-- What another node has of it.
pub data Arguments : Type 0 where
  pinged : PingRequest → Arguments
  node_wanted : FindNodeRequest → Arguments
  peers_wanted : GetPeersRequest → Arguments
  announced : AnnouncePeerRequest → Arguments
  samples_wanted : SampleInfohashesRequest → Arguments

abbrev pub query_name : Query → List Byte
query_name (ping id) = bytes "ping"
query_name (find_node id target n4 n6) = bytes "find_node"
query_name (get_peers id infohash n4 n6) = bytes "get_peers"
query_name (get_peers_scrape id infohash n4 n6 scrape) = bytes "get_peers"
query_name (announce_peer id infohash implied_port port token) = bytes "announce_peer"
query_name (sample_infohashes id target n4 n6) = bytes "sample_infohashes"

abbrev pub query_body : Query → Fields
query_body (ping id) = field (bytes "id") (str id) end
query_body (find_node id target n4 n6) = searching (bytes "target") id target n4 n6 end
query_body (get_peers id infohash n4 n6) = searching (bytes "info_hash") id infohash n4 n6 end
query_body (get_peers_scrape id infohash n4 n6 scrape) =
    searching (bytes "info_hash") id infohash n4 n6 (field (bytes "scrape") (flag scrape) end)
query_body (announce_peer id infohash implied_port port token) =
    announcing id implied_port infohash port token
query_body (sample_infohashes id target n4 n6) = searching (bytes "target") id target n4 n6 end

-- Ids have twenty bytes, a port sixteen bits, and a token at most twenty bytes.
abbrev pub IsSendable : Query → Type 0
IsSendable (ping id) = length id ≡ 20
IsSendable (find_node id target n4 n6) = (length id ≡ 20) × (length target ≡ 20)
IsSendable (get_peers id infohash n4 n6) = (length id ≡ 20) × (length infohash ≡ 20)
IsSendable (get_peers_scrape id infohash n4 n6 scrape) = (length id ≡ 20) × (length infohash ≡ 20)
IsSendable (announce_peer id infohash implied_port port token) =
    (length id ≡ 20) × (length infohash ≡ 20) × (port < 2 ^ 16) × (length token ≤ 20)
IsSendable (sample_infohashes id target n4 n6) = (length id ≡ 20) × (length target ≡ 20)

abbrev pub searched : Key → Key → Bool → Bool → FindNodeRequest
searched id target n4 n6 = record {
  sender = id;
  target = target;
  n4 = n4;
  n6 = n6;
  b_id = true;
  b_t = true;
  b_want = true;
}

abbrev pub peers_searched : Key → Key → Bool → Bool → GetPeersRequest
peers_searched id infohash n4 n6 = record blank_get_peers {
  sender = id;
  b_id = true;
  infohash = infohash;
  b_ih = true;
  n4 = n4;
  n6 = n6;
  b_want = true;
}

abbrev pub sampled : Key → Key → Bool → Bool → SampleInfohashesRequest
sampled id target n4 n6 = record {
  sender = id;
  target = target;
  n4 = n4;
  n6 = n6;
  b_id = true;
  b_target = true;
  b_want = true;
}

-- The arguments as they were sent.
abbrev pub as_sent : Query → Arguments
as_sent (ping id) = pinged (record blank_ping { sender = id; b_id = true })
as_sent (find_node id target n4 n6) = node_wanted (searched id target n4 n6)
as_sent (get_peers id infohash n4 n6) = peers_wanted (peers_searched id infohash n4 n6)
as_sent (get_peers_scrape id infohash n4 n6 scrape) =
    peers_wanted (record (peers_searched id infohash n4 n6) { scrape = scrape; b_sc = true })
as_sent (announce_peer id infohash implied_port port token) = announced (record blank_announce {
  sender = id;
  b_id = true;
  implied_port = implied_port;
  b_ip = true;
  infohash = infohash;
  b_ih = true;
  port = port;
  b_p = true;
  token = token_of token;
  b_t = true;
})
as_sent (sample_infohashes id target n4 n6) = samples_wanted (sampled id target n4 n6)

-- Fuel for any request.
abbrev pub much : ℕ → ℕ
much n = enough (enough (enough (enough n)))

abbrev pub written : Sp → Stream → (Texts → List Byte → Texts) → Transaction → Query → Writer
written sp io insert t (ping id) = Request.ping sp io insert t id
written sp io insert t (find_node id target n4 n6) =
    Request.find_node sp io insert t id target n4 n6
written sp io insert t (get_peers id infohash n4 n6) =
    Request.get_peers sp io insert t id infohash n4 n6
written sp io insert t (get_peers_scrape id infohash n4 n6 scrape) =
    Request.get_peers_scrape sp io insert t id infohash n4 n6 scrape
written sp io insert t (announce_peer id infohash implied_port port token) =
    Request.announce_peer sp io insert t id implied_port infohash port token
written sp io insert t (sample_infohashes id target n4 n6) =
    Request.sample_infohashes sp io insert t id target n4 n6

-- The parser that each of the handlers calls on the body.
abbrev pub parser : Sp → Front → (Texts → List Byte → Texts) → ℕ → Query → Reader Arguments
parser sp front insert fuel (ping id) = do
  r ← parse_ping_request sp fuel blank_ping
  return (pinged r)
parser sp front insert fuel (find_node id target n4 n6) = do
  r ← parse_find_node_request sp front insert fuel blank_find_node
  return (node_wanted r)
parser sp front insert fuel (get_peers id infohash n4 n6) = do
  r ← parse_get_peers_request sp front insert fuel blank_get_peers
  return (peers_wanted r)
parser sp front insert fuel (get_peers_scrape id infohash n4 n6 scrape) = do
  r ← parse_get_peers_request sp front insert fuel blank_get_peers
  return (peers_wanted r)
parser sp front insert fuel (announce_peer id infohash implied_port port token) = do
  r ← parse_announce_peer_request sp fuel blank_announce
  return (announced r)
parser sp front insert fuel (sample_infohashes id target n4 n6) = do
  r ← parse_sample_infohashes_request sp front insert fuel blank_sample
  return (samples_wanted r)

-- The handler of a query, with what it has of the frame.
abbrev pub with_frame : {A : Type 0} → Reader A → Frame → Reader (Transaction × List Byte × A)
with_frame m s = do a ← m; return (s.tx, s.query, a)
