-- ===== src/Krpc/Private/Fields.antt =====
-- The fields that the private messages of src/priv_krpc.cpp carry.
use btdht.Prelude.{
  ℕ, ◌+◌, ◌≡◌, refl, sym, ap, ◌∙◌, Bool, true, false, if◌then◌else◌, List, [], ◌∷◌, ◌++◌,
  append_assoc,
}
use btdht.Prelude.Bytes.{Byte}
use btdht.Prelude.Decimal.{decimal}
use btdht.Prelude.Text.{bytes}
use btdht.Id.{Key}
use btdht.Address.{Contact}
use btdht.Bencode.Spec.{string_text}
use btdht.Bencode.Tree.{
  Tree, nat, str, list, dict, Trees, nil, cons, Fields, end, field, field_texts, text,
}
use btdht.Bencode.Stream.{ipv4_of}
use btdht.Krpc.Private.{StatTrafic, StatDirection, Stat, Scrape, Scraping}

abbrev pub join : Fields → Fields → Fields
join end gs = gs
join (field k v fs) gs = field k v (join fs gs)

pub field_texts-join :
    (fs gs : Fields) → field_texts (join fs gs) ≡ field_texts fs ++ field_texts gs
unfolding field_texts
field_texts-join end gs = refl
field_texts-join (field k v fs) gs =
    ap (λ zs. (string_text k ++ text v) ++ zs) (field_texts-join fs gs)
    ∙ sym (append_assoc (string_text k ++ text v) (field_texts fs) (field_texts gs))

abbrev pub Numbers : Type 0
Numbers = List (List Byte × ℕ)

abbrev pub number_fields : Numbers → Fields
number_fields [] = end
number_fields ((k, n) ∷ ps) = field k (nat n) (number_fields ps)

abbrev pub trafic_numbers : List Byte → StatTrafic → Numbers
trafic_numbers key t =
    (key ++ bytes "-ping", t.ping)
    ∷ (key ++ bytes "-find_node", t.find_node)
    ∷ (key ++ bytes "-get_peers", t.get_peers)
    ∷ (key ++ bytes "-announce_peer", t.announce_peer)
    ∷ (key ++ bytes "-sample_infohashes", t.sample_infohashes)
    ∷ (key ++ bytes "-error", t.error)
    ∷ []

-- Timeouts are counted for what is received alone.
abbrev pub direction_fields : List Byte → StatDirection → Bool → Fields
direction_fields key d sent =
    join (number_fields (trafic_numbers (key ++ bytes "-request") d.request)) (
      join
        (if sent
          then end
          else number_fields (trafic_numbers (key ++ bytes "-response_timeout") d.response_timeout))
        (join (number_fields (trafic_numbers (key ++ bytes "-response") d.response))
          (number_fields ((key ++ bytes "-parse_error", d.parse_error) ∷ []))))

abbrev pub stat_fields : Stat → Fields
stat_fields s = join (direction_fields (bytes "transmit") s.transmit true) (
    join (direction_fields (bytes "received") s.received false) (
      number_fields (
        (bytes "known_tx", s.known_tx)
        ∷ (bytes "unknown_tx", s.unknown_tx)
        ∷ (bytes "scrape_swapped_ih", s.scrape_swapped_ih)
        ∷ [])))

abbrev pub scrape_numbers : ℕ → Scrape → Numbers
scrape_numbers i s =
    (bytes "routing_table_nodes" ++ decimal i, s.total_nodes)
    ∷ (bytes "candidates" ++ decimal i, s.candidates)
    ∷ (bytes "stat.publish" ++ decimal i, s.publish)
    ∷ (bytes "stat.sample_ih" ++ decimal i, s.sent_sample_infohash)
    ∷ (bytes "stat.response-get_peers" ++ decimal i, s.get_peer_responses)
    ∷ (bytes "stat.response-new-get_peers" ++ decimal i, s.new_get_peer)
    ∷ (bytes "approx-upcoming_sample_ih" ++ decimal i, s.upcoming_sample_infohashes)
    ∷ []

abbrev pub scrapes_fields : ℕ → List Scrape → Fields
scrapes_fields i [] = end
scrapes_fields i (s ∷ ss) =
    field (bytes "info_hash" ++ decimal i) (str s.id)
      (join (number_fields (scrape_numbers i s)) (scrapes_fields (i + 1) ss))

abbrev pub hours_numbers : ℕ → List ℕ → Numbers
hours_numbers i [] = []
hours_numbers i (n ∷ ns) = (bytes "scrape_hour" ++ decimal i, n) ∷ hours_numbers (i + 1) ns

abbrev pub scraping_fields : Scraping → Fields
scraping_fields s =
    join
      (number_fields (
        (bytes "active_scrapes", s.active_count)
        ∷ (bytes "active_sample_infohashes_requests", s.active_sample_infohashes)
        ∷ (bytes "queue_get_peers_ih", s.queue_get_peers_ih)
        ∷ []))
      (join (scrapes_fields 0 s.active_scrapes) (
        join
          (number_fields (
            (bytes "bootstrap_unique_inserts", s.unique_inserts)
            ∷ (bytes "scrape_hour_current_idx", s.hour_idx)
            ∷ []))
          (number_fields (hours_numbers 0 s.hours))))

abbrev pub contact_numbers : Contact → Numbers
contact_numbers c = (bytes "ipv4", ipv4_of c.ip) ∷ (bytes "port", c.port) ∷ []

abbrev pub contact_tree : Contact → Tree
contact_tree c = dict (number_fields (contact_numbers c))

abbrev pub contact_trees : List Contact → Trees
contact_trees [] = nil
contact_trees (c ∷ cs) = cons (contact_tree c) (contact_trees cs)

abbrev pub found_fields : Key → List Contact → Fields
found_fields infohash cs =
    field (bytes "id") (str infohash) (field (bytes "contacts") (list (contact_trees cs)) end)
