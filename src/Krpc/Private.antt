-- ===== src/Krpc/Private.antt =====
-- The private messages of src/priv_krpc.cpp: the requests, the responses with statistics and dumps of
-- the scraping, and the event `found`. What a response reads from the `DHT` is a record of it; a
-- sequence is the list of its elements. The keys that `sprintf` makes fit into their 64 bytes.
pub mod Fields
pub mod Parts
pub mod Correct
pub mod Compact
mod Tests
use btdht.Prelude.{
  ℕ, ◌+◌, Bool, true, false, not, if◌then◌else◌, Option, none, some, List, [], ◌∷◌, ◌++◌,
}
use btdht.Prelude.Bytes.{Byte}
use btdht.Prelude.Decimal.{decimal}
use btdht.Prelude.Text.{bytes}
use btdht.Id.{Key}
use btdht.Address.{Transaction, Contact}
use btdht.Sp.{Sp}
use btdht.Bencode.Encode
use btdht.Bencode.Encode.{Writer, ◌then◌, done}
use btdht.Bencode.Stream.{ipv4_of}
use btdht.Krpc.{message, resp, req}

-- `StatTrafic`
pub record StatTrafic : Type 0 where
  pub ping : ℕ
  pub find_node : ℕ
  pub get_peers : ℕ
  pub announce_peer : ℕ
  pub sample_infohashes : ℕ
  pub error : ℕ

pub record StatDirection : Type 0 where
  pub request : StatTrafic
  pub response_timeout : StatTrafic
  pub response : StatTrafic
  pub parse_error : ℕ

pub record Stat : Type 0 where
  pub transmit : StatDirection
  pub received : StatDirection
  pub known_tx : ℕ
  pub unknown_tx : ℕ
  pub scrape_swapped_ih : ℕ

-- What `dump_scrape` reads of one scrape.
pub record Scrape : Type 0 where
  pub id : Key
  pub total_nodes : ℕ
  pub candidates : ℕ
  pub publish : ℕ
  pub sent_sample_infohash : ℕ
  pub get_peer_responses : ℕ
  pub new_get_peer : ℕ
  pub upcoming_sample_infohashes : ℕ

-- What it reads besides.
pub record Scraping : Type 0 where
  pub active_scrapes : List Scrape
  pub active_count : ℕ
  pub active_sample_infohashes : ℕ
  pub queue_get_peers_ih : ℕ
  pub unique_inserts : ℕ
  pub hour_idx : ℕ
  pub hours : List ℕ

module _ (sp : Sp) where
  -- The requests without arguments, of namespace `request`.
  pub dump : Transaction → Writer
  dump t = req sp t (bytes "sp_dump") done

  pub dump_scrape : Transaction → Writer
  dump_scrape t = req sp t (bytes "sp_dump_scrape") done

  pub debug_scrape : Transaction → Writer
  debug_scrape t = req sp t (bytes "sp_debug_scrape") done

  pub dump_db : Transaction → Writer
  dump_db t = req sp t (bytes "sp_dump_db") done

  pub statistics : Transaction → Writer
  statistics t = req sp t (bytes "sp_statistics") done

  pub search : Transaction → Key → ℕ → Writer
  search t infohash timeout = req sp t (bytes "sp_search") (
      Encode.pair_bytes sp (bytes "search") infohash
      then Encode.pair_uint sp (bytes "timeout") timeout
      then done)

  pub stop_search : Transaction → Key → Writer
  stop_search t infohash =
      req sp t (bytes "sp_search_stop") (Encode.pair_bytes sp (bytes "search") infohash then done)

  pub pair_trafic : List Byte → StatTrafic → Writer
  pair_trafic key t =
      Encode.pair_uint sp (key ++ bytes "-ping") t.ping
      then Encode.pair_uint sp (key ++ bytes "-find_node") t.find_node
      then Encode.pair_uint sp (key ++ bytes "-get_peers") t.get_peers
      then Encode.pair_uint sp (key ++ bytes "-announce_peer") t.announce_peer
      then Encode.pair_uint sp (key ++ bytes "-sample_infohashes") t.sample_infohashes
      then Encode.pair_uint sp (key ++ bytes "-error") t.error
      then done

  pub pair_direction : List Byte → StatDirection → Bool → Writer
  pair_direction key d sent =
      pair_trafic (key ++ bytes "-request") d.request
      then (if not sent
          then pair_trafic (key ++ bytes "-response_timeout") d.response_timeout
          else done)
      then pair_trafic (key ++ bytes "-response") d.response
      then Encode.pair_uint sp (key ++ bytes "-parse_error") d.parse_error
      then done

  pub statistics_response : Transaction → Stat → Writer
  statistics_response t stat = resp sp t (
      pair_direction (bytes "transmit") stat.transmit true
      then pair_direction (bytes "received") stat.received false
      then Encode.pair_uint sp (bytes "known_tx") stat.known_tx
      then Encode.pair_uint sp (bytes "unknown_tx") stat.unknown_tx
      then Encode.pair_uint sp (bytes "scrape_swapped_ih") stat.scrape_swapped_ih
      then done)

  pub search_response : Transaction → Writer
  search_response t = resp sp t done

  pub search_stop_response : Transaction → Writer
  search_stop_response t = resp sp t done

  pub announce_this : Transaction → Writer
  announce_this t = resp sp t done

  pub write_scrapes : ℕ → List Scrape → Writer
  write_scrapes i [] = done
  write_scrapes i (s ∷ ss) =
      Encode.pair_bytes sp (bytes "info_hash" ++ decimal i) s.id
      then Encode.pair_uint sp (bytes "routing_table_nodes" ++ decimal i) s.total_nodes
      then Encode.pair_uint sp (bytes "candidates" ++ decimal i) s.candidates
      then Encode.pair_uint sp (bytes "stat.publish" ++ decimal i) s.publish
      then Encode.pair_uint sp (bytes "stat.sample_ih" ++ decimal i) s.sent_sample_infohash
      then Encode.pair_uint sp (bytes "stat.response-get_peers" ++ decimal i) s.get_peer_responses
      then Encode.pair_uint sp (bytes "stat.response-new-get_peers" ++ decimal i) s.new_get_peer
      then Encode.pair_uint sp (bytes "approx-upcoming_sample_ih" ++ decimal i)
          s.upcoming_sample_infohashes
      then write_scrapes (i + 1) ss

  pub write_hours : ℕ → List ℕ → Writer
  write_hours i [] = done
  write_hours i (n ∷ ns) =
      Encode.pair_uint sp (bytes "scrape_hour" ++ decimal i) n then write_hours (i + 1) ns

  pub dump_scrape_response : Transaction → Scraping → Writer
  dump_scrape_response t s = resp sp t (
      Encode.encode_raw sp (bytes "scrape")
      then Encode.dict sp (
          Encode.pair_uint sp (bytes "active_scrapes") s.active_count
          then Encode.pair_uint sp (bytes "active_sample_infohashes_requests")
              s.active_sample_infohashes
          then Encode.pair_uint sp (bytes "queue_get_peers_ih") s.queue_get_peers_ih
          then write_scrapes 0 s.active_scrapes
          then Encode.pair_uint sp (bytes "bootstrap_unique_inserts") s.unique_inserts
          then Encode.pair_uint sp (bytes "scrape_hour_current_idx") s.hour_idx
          then write_hours 0 s.hours))

  pub debug_scrape_response : Transaction → ℕ → ℕ → Writer
  debug_scrape_response t capacity cache_length = resp sp t (
      Encode.pair_uint sp (bytes "theoretical_max_capacity_bloomfilter") capacity
      then Encode.pair_uint sp (bytes "length_bloomfilter") cache_length
      then done)

  -- `value` of a contact
  pub value_contact : Contact → Writer
  value_contact c = Encode.dict sp (
      Encode.pair_uint sp (bytes "ipv4") (ipv4_of c.ip)
      then Encode.pair_uint sp (bytes "port") c.port
      then done)

  pub write_found : List Contact → Writer
  write_found [] = done
  write_found (c ∷ cs) = value_contact c then write_found cs

  pub event : Writer → Writer
  event f =
      message sp (record { id = bytes "12ab"; length = 4 }) (bytes "q") (some (bytes "sp_found"))
        (Encode.encode_raw sp (bytes "a") then Encode.dict sp f)

  pub found : Key → List Contact → Writer
  unfolding event
  found infohash contacts = event (
      Encode.pair_bytes sp (bytes "id") infohash
      then Encode.encode_raw sp (bytes "contacts")
      then Encode.list sp (write_found contacts))
