-- ===== src/Krpc/Private/Parts.antt =====
-- The parts of the private messages of src/priv_krpc.cpp write what they carry.
use btdht.Prelude.{
  ℕ, ◌+◌, ◌≡◌, sym, subst, append-nil, Bool, true, false, not, if◌then◌else◌, List, [], ◌∷◌, ◌++◌,
}
use btdht.Prelude.Bytes.{Byte}
use btdht.Prelude.Decimal.{decimal}
use btdht.Prelude.Text.{bytes}
use btdht.Address.{Transaction, Contact}
use btdht.Sp.{Sp, SpLaws}
use btdht.Bencode.Spec.{string_text, Encodes}
use btdht.Bencode.Tree.{Tree, list, dict, Trees, Fields, end, field, text, texts, field_texts}
use btdht.Bencode.Encode
use btdht.Bencode.Encode.{Writer, ◌then◌, done}
use btdht.Bencode.Encode.Contract.{Emits, Encodes-Emits, then-Emits}
use btdht.Bencode.Encode.Correct.{bracketed-Encodes, encode_raw-Encodes}
use btdht.Bencode.Stream.Correct.{done-Emits}
use btdht.Krpc.Fields.{bytes-field, nat-field, end-Emits}
use btdht.Krpc.Frame.{resp_tree, resp-Encodes, keyed_dict-Emits}
use btdht.Krpc.Private.{
  StatTrafic, StatDirection, Stat, Scrape, Scraping, pair_trafic, pair_direction,
  statistics_response, write_scrapes, write_hours, dump_scrape_response, value_contact, write_found,
}
use btdht.Krpc.Private.Fields.{
  join, field_texts-join, Numbers, number_fields, trafic_numbers, direction_fields, stat_fields,
  scrape_numbers, scrapes_fields, hours_numbers, scraping_fields, contact_numbers, contact_tree,
  contact_trees,
}

module _ (sp : Sp) (laws : SpLaws sp) where
  -- Pairs of numbers in front of other writes.
  abbrev numbers_then : Numbers → Writer → Writer
  numbers_then [] rest = rest
  numbers_then ((k, n) ∷ ps) rest = Encode.pair_uint sp k n then numbers_then ps rest

  numbers-Emits :
      (ps : Numbers) (rest : Writer) (fs : Fields)
      → Emits rest (field_texts fs)
      → Emits (numbers_then ps rest) (field_texts (join (number_fields ps) fs))
  numbers-Emits [] rest fs e = e
  numbers-Emits ((k, n) ∷ ps) rest fs e =
      nat-field sp laws (numbers_then ps rest) (join (number_fields ps) fs)
        (numbers-Emits ps rest fs e) k n

  join-end : (fs : Fields) → join fs end ≡ fs
  join-end end = λ i. end
  join-end (field k v fs) = λ i. field k v (join-end fs i)

  pub all_numbers-Emits :
      (ps : Numbers) → Emits (numbers_then ps done) (field_texts (number_fields ps))
  all_numbers-Emits ps =
      subst (λ fs. Emits (numbers_then ps done) (field_texts fs)) (join-end (number_fields ps))
        (numbers-Emits ps done end end-Emits)

  joined-Emits :
      (m rest : Writer) (fs gs : Fields)
      → Emits m (field_texts fs)
      → Emits rest (field_texts gs)
      → Emits (m then rest) (field_texts (join fs gs))
  joined-Emits m rest fs gs e f =
      subst (Emits (m then rest)) (sym (field_texts-join fs gs))
        (then-Emits m rest (field_texts fs) (field_texts gs) e f)

  trafic-Emits :
      (key : List Byte) (t : StatTrafic)
      → Emits (pair_trafic sp key t) (field_texts (number_fields (trafic_numbers key t)))
  unfolding pair_trafic
  trafic-Emits key t = all_numbers-Emits (trafic_numbers key t)

  timeouts-Emits :
      (key : List Byte) (t : StatTrafic) (sent : Bool)
      → Emits
          (if not sent then pair_trafic sp key t else done)
          (field_texts (if sent then end else number_fields (trafic_numbers key t)))
  timeouts-Emits key t true = end-Emits
  timeouts-Emits key t false = trafic-Emits key t

  direction-Emits :
      (key : List Byte) (d : StatDirection) (sent : Bool)
      → Emits (pair_direction sp key d sent) (field_texts (direction_fields key d sent))
  unfolding pair_direction
  direction-Emits key d sent =
      let errors : Numbers = (key ++ bytes "-parse_error", d.parse_error) ∷ [] in
      let responses = trafic_numbers (key ++ bytes "-response") d.response in
      joined-Emits _ _ (number_fields (trafic_numbers (key ++ bytes "-request") d.request)) _
        (trafic-Emits (key ++ bytes "-request") d.request)
        (joined-Emits _ _
          (if sent
            then end
            else number_fields
                (trafic_numbers (key ++ bytes "-response_timeout") d.response_timeout))
          _ (timeouts-Emits (key ++ bytes "-response_timeout") d.response_timeout sent)
          (joined-Emits _ _ (number_fields responses) (number_fields errors)
            (trafic-Emits (key ++ bytes "-response") d.response) (all_numbers-Emits errors)))

  pub stat-Encodes :
      (t : Transaction) (s : Stat)
      → Encodes (statistics_response sp t s) (text (resp_tree t (stat_fields s)))
  unfolding statistics_response
  stat-Encodes t s =
      let counts : Numbers =
        (bytes "known_tx", s.known_tx)
        ∷ (bytes "unknown_tx", s.unknown_tx)
        ∷ (bytes "scrape_swapped_ih", s.scrape_swapped_ih)
        ∷ [] in
      resp-Encodes sp laws t _ (stat_fields s) (
        joined-Emits _ _ (direction_fields (bytes "transmit") s.transmit true) _
          (direction-Emits (bytes "transmit") s.transmit true)
          (joined-Emits _ _ (direction_fields (bytes "received") s.received false)
            (number_fields counts) (direction-Emits (bytes "received") s.received false)
            (all_numbers-Emits counts)))

  scrapes-Emits :
      (i : ℕ) (ss : List Scrape) → Emits (write_scrapes sp i ss) (field_texts (scrapes_fields i ss))
  unfolding write_scrapes
  scrapes-Emits i [] = end-Emits
  scrapes-Emits i (s ∷ ss) =
      bytes-field sp laws _ (join (number_fields (scrape_numbers i s)) (scrapes_fields (i + 1) ss))
        (numbers-Emits (scrape_numbers i s) (write_scrapes sp (i + 1) ss)
          (scrapes_fields (i + 1) ss) (scrapes-Emits (i + 1) ss))
        (bytes "info_hash" ++ decimal i) s.id

  hours-Emits :
      (i : ℕ) (ns : List ℕ)
      → Emits (write_hours sp i ns) (field_texts (number_fields (hours_numbers i ns)))
  unfolding write_hours
  hours-Emits i [] = end-Emits
  hours-Emits i (n ∷ ns) =
      nat-field sp laws _ (number_fields (hours_numbers (i + 1) ns)) (hours-Emits (i + 1) ns)
        (bytes "scrape_hour" ++ decimal i) n

  pub last_field :
      (k : List Byte) (v : Tree) (m : Writer)
      → Emits m (string_text k ++ text v)
      → Emits m (field_texts (field k v end))
  unfolding text
  last_field k v m e = subst (Emits m) (sym (append-nil (string_text k ++ text v))) e

  pub scraping-Encodes :
      (t : Transaction) (s : Scraping)
      → Encodes
          (dump_scrape_response sp t s)
          (text (resp_tree t (field (bytes "scrape") (dict (scraping_fields s)) end)))
  unfolding dump_scrape_response
  scraping-Encodes t s =
      let counts : Numbers =
        (bytes "active_scrapes", s.active_count)
        ∷ (bytes "active_sample_infohashes_requests", s.active_sample_infohashes)
        ∷ (bytes "queue_get_peers_ih", s.queue_get_peers_ih)
        ∷ [] in
      let indices : Numbers =
        (bytes "bootstrap_unique_inserts", s.unique_inserts)
        ∷ (bytes "scrape_hour_current_idx", s.hour_idx)
        ∷ [] in
      resp-Encodes sp laws t _ (field (bytes "scrape") (dict (scraping_fields s)) end) (
        last_field (bytes "scrape") (dict (scraping_fields s)) _ (
          keyed_dict-Emits sp laws (bytes "scrape") _ (scraping_fields s) (
            numbers-Emits counts _ _ (
              joined-Emits _ _ (scrapes_fields 0 s.active_scrapes) _
                (scrapes-Emits 0 s.active_scrapes)
                (numbers-Emits indices _ (number_fields (hours_numbers 0 s.hours))
                  (hours-Emits 0 s.hours))))))

  contact-Emits : (c : Contact) → Emits (value_contact sp c) (text (contact_tree c))
  unfolding value_contact text
  contact-Emits c =
      Encodes-Emits _ _ (bracketed-Encodes sp laws _ _ (all_numbers-Emits (contact_numbers c))).1

  pub keyed_list-Emits :
      (k : List Byte) (m : Writer) (ts : Trees)
      → Emits m (texts ts)
      → Emits (Encode.encode_raw sp k then Encode.list sp m) (string_text k ++ text (list ts))
  unfolding text
  keyed_list-Emits k m ts e =
      then-Emits _ _ (string_text k) (text (list ts))
        (Encodes-Emits _ _ (encode_raw-Encodes sp laws k))
        (Encodes-Emits _ _ (bracketed-Encodes sp laws m (texts ts) e).0)

  pub found-Emits : (cs : List Contact) → Emits (write_found sp cs) (texts (contact_trees cs))
  unfolding write_found text
  found-Emits [] = done-Emits
  found-Emits (c ∷ cs) =
      then-Emits _ _ (text (contact_tree c)) (texts (contact_trees cs)) (contact-Emits c)
        (found-Emits cs)
