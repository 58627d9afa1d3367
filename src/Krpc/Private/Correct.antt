-- ===== src/Krpc/Private/Correct.antt =====
-- The private messages of src/priv_krpc.cpp write what they carry.
use btdht.Prelude.{ℕ, List, [], ◌∷◌, some}
use btdht.Prelude.Bytes.{Byte}
use btdht.Prelude.Text.{bytes}
use btdht.Id.{Key}
use btdht.Address.{Transaction, Contact}
use btdht.Sp.{Sp, SpLaws}
use btdht.Bencode.Spec.{Encodes}
use btdht.Bencode.Tree.{nat, str, list, dict, end, field, text}
use btdht.Bencode.Encode.{done}
use btdht.Krpc.Fields.{bytes-field, nat-field, end-Emits}
use btdht.Krpc.Frame.{
  req_tree, resp_tree, req-Encodes, resp-Encodes, message-Encodes, keyed_dict-Emits,
}
use btdht.Krpc.{req}
use btdht.Krpc.Private.{
  Stat, Scraping, dump, dump_scrape, debug_scrape, dump_db, statistics, search, stop_search,
  statistics_response, search_response, search_stop_response, announce_this, dump_scrape_response,
  debug_scrape_response, write_found, event, found,
}
use btdht.Krpc.Private.Fields.{
  number_fields, stat_fields, scraping_fields, contact_trees, found_fields,
}
use btdht.Krpc.Private.Parts.{
  all_numbers-Emits, stat-Encodes, last_field, scraping-Encodes, keyed_list-Emits, found-Emits,
}

module _ (sp : Sp) (laws : SpLaws sp) where
  empty_req-Encodes :
      (t : Transaction) (query : List Byte)
      → Encodes (req sp t query done) (text (req_tree t query end))
  empty_req-Encodes t query = req-Encodes sp laws t query done end end-Emits

  search-Encodes :
      (t : Transaction) (infohash : Key) (timeout : ℕ)
      → Encodes (search sp t infohash timeout) (
          text (
            req_tree t
              (bytes "sp_search")
              (field (bytes "search") (str infohash) (field (bytes "timeout") (nat timeout) end))))
  unfolding search
  search-Encodes t infohash timeout = req-Encodes sp laws t _ _ _ (
      bytes-field sp laws _ (field (bytes "timeout") (nat timeout) end)
        (nat-field sp laws done end end-Emits (bytes "timeout") timeout) (bytes "search") infohash)

  found-Encodes :
      (infohash : Key) (cs : List Contact)
      → Encodes (found sp infohash cs) (
          text (
            req_tree
              (record { id = bytes "12ab"; length = 4 })
              (bytes "sp_found")
              (found_fields infohash cs)))
  unfolding found event
  found-Encodes infohash cs =
      message-Encodes sp laws (record { id = bytes "12ab"; length = 4 }) (bytes "q")
        (some (bytes "sp_found")) _ (bytes "a") (dict (found_fields infohash cs))
        (keyed_dict-Emits sp laws (bytes "a") _ (found_fields infohash cs) (
          bytes-field sp laws _ (field (bytes "contacts") (list (contact_trees cs)) end)
            (last_field sp laws (bytes "contacts") (list (contact_trees cs)) _ (
              keyed_list-Emits sp laws (bytes "contacts") (write_found sp cs) (contact_trees cs)
                (found-Emits sp laws cs)))
            (bytes "id") infohash))

  -- Of the private messages, these are written whole or not at all: every request with its arguments,
  -- the statistics in both directions, of whose timeouts only those counted as received are written,
  -- the dump of the scraping with the numbered values of each scrape and hour, the other responses but
  -- `dump` and `dump_db`, and the event of the contacts found.
  pub private_messages-Encodes :
      (t : Transaction) (infohash : Key) (timeout capacity cache_length : ℕ) (stat : Stat)
      (s : Scraping) (cs : List Contact)
      → Encodes (dump sp t) (text (req_tree t (bytes "sp_dump") end))
        × Encodes (dump_scrape sp t) (text (req_tree t (bytes "sp_dump_scrape") end))
        × Encodes (debug_scrape sp t) (text (req_tree t (bytes "sp_debug_scrape") end))
        × Encodes (dump_db sp t) (text (req_tree t (bytes "sp_dump_db") end))
        × Encodes (statistics sp t) (text (req_tree t (bytes "sp_statistics") end))
        × Encodes (search sp t infohash timeout) (
            text (
              req_tree t (bytes "sp_search") (
                field (bytes "search") (str infohash) (field (bytes "timeout") (nat timeout) end))))
        × Encodes
            (stop_search sp t infohash)
            (text (req_tree t (bytes "sp_search_stop") (field (bytes "search") (str infohash) end)))
        × Encodes (statistics_response sp t stat) (text (resp_tree t (stat_fields stat)))
        × Encodes (search_response sp t) (text (resp_tree t end))
        × Encodes (search_stop_response sp t) (text (resp_tree t end))
        × Encodes (announce_this sp t) (text (resp_tree t end))
        × Encodes
            (dump_scrape_response sp t s)
            (text (resp_tree t (field (bytes "scrape") (dict (scraping_fields s)) end)))
        × Encodes (debug_scrape_response sp t capacity cache_length) (
            text (
              resp_tree t (
                number_fields (
                  (bytes "theoretical_max_capacity_bloomfilter", capacity)
                  ∷ (bytes "length_bloomfilter", cache_length)
                  ∷ []))))
        × Encodes (found sp infohash cs) (
            text (
              req_tree
                (record { id = bytes "12ab"; length = 4 })
                (bytes "sp_found")
                (found_fields infohash cs)))
  unfolding dump dump_scrape debug_scrape dump_db statistics stop_search search_response
      search_stop_response announce_this debug_scrape_response
  private_messages-Encodes t infohash timeout capacity cache_length stat s cs = (
    empty_req-Encodes t (bytes "sp_dump"),
    empty_req-Encodes t (bytes "sp_dump_scrape"),
    empty_req-Encodes t (bytes "sp_debug_scrape"),
    empty_req-Encodes t (bytes "sp_dump_db"),
    empty_req-Encodes t (bytes "sp_statistics"),
    search-Encodes t infohash timeout,
    req-Encodes sp laws t _ _ _ (bytes-field sp laws done end end-Emits (bytes "search") infohash),
    stat-Encodes sp laws t stat,
    resp-Encodes sp laws t done end end-Emits,
    resp-Encodes sp laws t done end end-Emits,
    resp-Encodes sp laws t done end end-Emits,
    scraping-Encodes sp laws t s,
    resp-Encodes sp laws t _ _ (
        all_numbers-Emits sp laws (
          (bytes "theoretical_max_capacity_bloomfilter", capacity)
          ∷ (bytes "length_bloomfilter", cache_length)
          ∷ [])),
    found-Encodes infohash cs,
  )
