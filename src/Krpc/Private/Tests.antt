-- ===== src/Krpc/Private/Tests.antt =====
-- The theorems on src/priv_krpc.cpp at small inputs.
use btdht.Prelude.{[], ◌∷◌, ◌++◌, true, false, refl, replicate}
use btdht.Prelude.Text.{bytes}
use btdht.Id.{Key}
use btdht.Address.{ipv4, Contact, Transaction}
use btdht.Routing.{Node}
use btdht.Sp.{reference, reference-SpLaws}
use btdht.Bencode.Spec.{string_text, Encodes}
use btdht.Bencode.Tree.{text}
use btdht.Bencode.Encode.Contract.{Emits}
use btdht.Bencode.Stream.Correct.{compact_node, concat_map}
use btdht.Krpc.Frame.{resp_tree}
use btdht.Krpc.Private.{StatTrafic, StatDirection, Stat, Scraping, statistics_response}
use btdht.Krpc.Private.Fields.{stat_fields}
use btdht.Krpc.Private.Correct.{private_messages-Encodes}
use btdht.Krpc.Private.Compact.{pair_compact_nodes, compact_pairs-Emits}

abbrev transaction : Transaction
transaction = record { length = 4; id = bytes "aa12" }

abbrev ids : Key
ids = replicate 20 7

abbrev contact : Contact
contact = record { ip = ipv4 167772161; port = 6881 }

abbrev node : Node
node = record {
  contact = contact;
  id = ids;
  outstanding = 0;
  remote_activity = 0;
  req_sent = 0;
  valid_id = true;
  is_good = true;
  is_readonly = false;
  support_sample_infohashes = false;
}

abbrev trafic : StatTrafic
trafic = record {
  ping = 1;
  find_node = 2;
  get_peers = 3;
  announce_peer = 4;
  sample_infohashes = 5;
  error = 6;
}

abbrev direction : StatDirection
direction = record {
  request = trafic;
  response_timeout = trafic;
  response = trafic;
  parse_error = 7;
}

abbrev stat : Stat
stat = record {
  transmit = direction;
  received = direction;
  known_tx = 8;
  unknown_tx = 9;
  scrape_swapped_ih = 10;
}

abbrev scraping : Scraping
scraping = record {
  active_scrapes =
      record {
        id = ids;
        total_nodes = 1;
        candidates = 2;
        publish = 3;
        sent_sample_infohash = 4;
        get_peer_responses = 5;
        new_get_peer = 6;
        upcoming_sample_infohashes = 7;
      }
      ∷ [];
  active_count = 1;
  active_sample_infohashes = 2;
  queue_get_peers_ih = 3;
  unique_inserts = 4;
  hour_idx = 5;
  hours = 1 ∷ 2 ∷ [];
}

private_messages-Encodes_example :
    Encodes
      (statistics_response reference transaction stat)
      (text (resp_tree transaction (stat_fields stat)))
private_messages-Encodes_example =
    (private_messages-Encodes reference reference-SpLaws transaction ids 60 1000 2 stat scraping
      (contact ∷ [])).7

compact_pairs-Emits_example :
    Emits
      (pair_compact_nodes reference (bytes "nodes") (node ∷ []))
      (string_text (bytes "nodes") ++ string_text (concat_map compact_node (node ∷ [])))
compact_pairs-Emits_example =
    (compact_pairs-Emits reference reference-SpLaws (bytes "nodes") (node ∷ []) (contact ∷ [])
      (refl, tt)).0
