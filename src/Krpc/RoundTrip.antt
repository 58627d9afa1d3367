-- ===== src/Krpc/RoundTrip.antt =====
-- The requests of src/krpc.cpp against the parsers of src/krpc.h and src/krpc_parse.cpp: what one node
-- writes, another reads.
use btdht.Prelude.{
  ℕ, suc, ◌^◌, ◌≤◌, ◌<◌, ◌≡◌, refl, subst₂, Bool, true, false, some, List, [], arith, length,
  if◌then◌else◌,
}
use btdht.Prelude.Bytes.{Byte}
use btdht.Prelude.Text.{bytes}
use btdht.Id.{Key}
use btdht.Address.{Transaction}
use btdht.Sp.{Buffer, Sp, SpLaws, IsValid}
use btdht.Bencode.Spec.{Encodes}
use btdht.Bencode.Tree.{list, dict, Fields, end, field, text}
use btdht.Bencode.Stream.{Stream, StreamLaws}
use btdht.Bencode.Stream.Pairs.{flag}
use btdht.Bencode.Decode.{Reader}
use btdht.Bencode.Decode.Contract.{Reads}
use btdht.Bencode.Generic.{Front, FrontLaws}
use btdht.Bencode.RoundTrip.{ReadsBack, round_trip}
use btdht.Bencode.Plain.{HasPlain, ArePlain, rounds}
use btdht.Krpc.Frame.{req_tree}
use btdht.Krpc.Request.{Texts, Inserts, want_trees, searching, requests-Encodes}
use btdht.Krpc.Parse.Request.{wanted}
use btdht.Krpc.Parse.Fields.{enough}
use btdht.Krpc.Parse.Rounds.{mapped}
use btdht.Krpc.Parse.Correct.{ping_body, announce_peer_body}
use btdht.Krpc.Parse.Wants.{want_texts}
use btdht.Krpc.Parse.Searches.{find_node_body, sample_infohashes_body}
use btdht.Krpc.Parse.Peers.{get_peers_body, get_peers_scrape_body}
use btdht.Krpc.Parse.Receive.{tx_of, complete, krpc}
use btdht.Krpc.Parse.Frames.{arguments}
use btdht.Krpc.Parse.Received.{used, CutLaws, krpc-Reads}
use btdht.Krpc.Query.{
  Query, ping, find_node, get_peers, get_peers_scrape, announce_peer, sample_infohashes, pinged,
  node_wanted, peers_wanted, announced, samples_wanted, query_name, query_body, IsSendable,
  searched, peers_searched, sampled, as_sent, much, written, parser, with_frame,
}

wanted_lem :
    (n4 n6 : Bool)
    → (wanted (bytes "n4") (want_texts n4 n6) false ≡ n4)
      × (wanted (bytes "n6") (want_texts n4 n6) false ≡ n6)
wanted_lem true true = (refl, refl)
wanted_lem true false = (refl, refl)
wanted_lem false true = (refl, refl)
wanted_lem false false = (refl, refl)

want_given :
    {S : Type 0} (f : Bool → Bool → S) (m : Reader S) (xs : List Byte) (n4 n6 : Bool)
    → Reads m xs (
        f
          (wanted (bytes "n4") (want_texts n4 n6) false)
          (wanted (bytes "n6") (want_texts n4 n6) false))
    → Reads m xs (f n4 n6)
want_given f m xs n4 n6 e =
    subst₂ (λ x y. Reads m xs (f x y)) (wanted_lem n4 n6).0 (wanted_lem n4 n6).1 e

want_rounds : (n4 n6 : Bool) → rounds (list (want_trees n4 n6)) ≤ 7
want_rounds true true = omega arith
want_rounds true false = omega arith
want_rounds false true = omega arith
want_rounds false false = omega arith

want_plain : (n4 n6 : Bool) → ArePlain (want_trees n4 n6)
want_plain true true = omega arith
want_plain true false = omega arith
want_plain false true = omega arith
want_plain false false = tt

flag_plain : (f : Bool) → (if f then 1 else 0) < 2 ^ 64
flag_plain true = omega arith
flag_plain false = omega arith

search_plain :
    (k : List Byte) (id target : Key) (n4 n6 : Bool) (fs : Fields)
    → length k < 2 ^ 64
    → (length id ≡ 20) × (length target ≡ 20)
    → HasPlain fs
    → HasPlain (searching k id target n4 n6 fs)
search_plain k id target n4 n6 fs hk h rest =
    (omega arith, omega arith, (hk, omega arith, (omega arith, want_plain n4 n6, rest)))

body_plain : (q : Query) → IsSendable q → HasPlain (query_body q)
body_plain (ping id) h = omega arith
body_plain (find_node id target n4 n6) h =
    search_plain (bytes "target") id target n4 n6 end (omega arith) h tt
body_plain (get_peers id infohash n4 n6) h =
    search_plain (bytes "info_hash") id infohash n4 n6 end (omega arith) h tt
body_plain (get_peers_scrape id infohash n4 n6 scrape) h =
    search_plain (bytes "info_hash") id infohash n4 n6 (field (bytes "scrape") (flag scrape) end)
      (omega arith) h (omega arith, flag_plain scrape, tt)
body_plain (announce_peer id infohash implied_port port token) h = (
  omega arith,
  omega arith,
  (
    omega arith,
    flag_plain implied_port,
    (omega arith, omega arith, (omega arith, omega arith, (omega arith, omega arith, tt))),
  ),
)
body_plain (sample_infohashes id target n4 n6) h =
    search_plain (bytes "target") id target n4 n6 end (omega arith) h tt

short_name : (q : Query) → length (query_name q) ≤ 64
short_name (ping id) = omega arith
short_name (find_node id target n4 n6) = omega arith
short_name (get_peers id infohash n4 n6) = omega arith
short_name (get_peers_scrape id infohash n4 n6 scrape) = omega arith
short_name (announce_peer id infohash implied_port port token) = omega arith
short_name (sample_infohashes id target n4 n6) = omega arith

body_rounds : (q : Query) (n : ℕ) → suc (rounds (dict (query_body q))) ≤ much n
body_rounds (ping id) n = omega arith
body_rounds (find_node id target n4 n6) n = omega (arith, want_rounds n4 n6)
body_rounds (get_peers id infohash n4 n6) n = omega (arith, want_rounds n4 n6)
body_rounds (get_peers_scrape id infohash n4 n6 scrape) n = omega (arith, want_rounds n4 n6)
body_rounds (announce_peer id infohash implied_port port token) n = omega arith
body_rounds (sample_infohashes id target n4 n6) n = omega (arith, want_rounds n4 n6)

module _ (sp : Sp) (laws : SpLaws sp) (front : Front) (fronts : FrontLaws front)
    (insert : Texts → List Byte → Texts) (inserts : Inserts insert) where
  parser-Reads :
      (n : ℕ) (q : Query)
      → IsSendable q
      → Reads (parser sp front insert (enough n) q) (text (dict (query_body q))) (as_sent q)
  parser-Reads n (ping id) h = mapped _ pinged _ _ (ping_body sp laws n id h)
  parser-Reads n (announce_peer id infohash implied_port port token) h =
      mapped _ announced _ _
        (announce_peer_body sp laws n id implied_port infohash port token h.0 h.1 h.2 h.3)
  parser-Reads n (find_node id target n4 n6) h = mapped _ node_wanted _ (searched id target n4 n6) (
      want_given (searched id target) _ _ n4 n6
        (find_node_body sp laws front fronts insert inserts n id target n4 n6 h.0 h.1))
  parser-Reads n (get_peers id infohash n4 n6) h =
      mapped _ peers_wanted _ (peers_searched id infohash n4 n6) (
        want_given (peers_searched id infohash) _ _ n4 n6
          (get_peers_body sp laws front fronts insert inserts n id infohash n4 n6 h.0 h.1))
  parser-Reads n (get_peers_scrape id infohash n4 n6 scrape) h =
      mapped _ peers_wanted _
        (record (peers_searched id infohash n4 n6) { scrape = scrape; b_sc = true })
        (want_given
          (λ (x y : Bool). record (peers_searched id infohash x y) { scrape = scrape; b_sc = true })
          _ _ n4 n6
          (get_peers_scrape_body sp laws front fronts insert inserts n id infohash n4 n6 scrape h.0
            h.1))
  parser-Reads n (sample_infohashes id target n4 n6) h =
      mapped _ samples_wanted _ (sampled id target n4 n6) (
        want_given (sampled id target) _ _ n4 n6
          (sample_infohashes_body sp laws front fronts insert inserts n id target n4 n6 h.0 h.1))

  module _ (io : Stream) (streams : StreamLaws io) (t : Transaction) where
    written-Encodes :
        (q : Query)
        → Encodes (written sp io insert t q) (text (req_tree t (query_name q) (query_body q)))
    written-Encodes (ping id) =
        (requests-Encodes sp laws io streams insert inserts t id id true true true 0 []).0
    written-Encodes (find_node id target n4 n6) =
        (requests-Encodes sp laws io streams insert inserts t id target n4 n6 true 0 []).1
    written-Encodes (get_peers id infohash n4 n6) =
        (requests-Encodes sp laws io streams insert inserts t id infohash n4 n6 true 0 []).2
    written-Encodes (get_peers_scrape id infohash n4 n6 scrape) =
        (requests-Encodes sp laws io streams insert inserts t id infohash n4 n6 scrape 0 []).3
    written-Encodes (announce_peer id infohash implied_port port token) =
        (requests-Encodes sp laws io streams insert inserts t id infohash true true implied_port
          port token).4
    written-Encodes (sample_infohashes id target n4 n6) =
        (requests-Encodes sp laws io streams insert inserts t id target n4 n6 true 0 []).5

    module _ (cut : Buffer → ℕ → ℕ → Buffer) (cuts : CutLaws cut) (ht : length (used t) ≤ 32) where
      frame-Reads :
          (n : ℕ) (q : Query)
          → IsSendable q
          → Reads
              (krpc sp cut (much n) (with_frame (parser sp front insert (much n) q)))
              (text (req_tree t (query_name q) (query_body q)))
              (tx_of (used t), query_name q, as_sent q)
      unfolding complete
      frame-Reads n q h =
          krpc-Reads sp laws t ht cut cuts _ _ arguments (bytes "q") (some (query_name q))
            (query_body q) (suc (suc (enough (enough (enough n))))) (omega arith) (short_name q)
            (body_plain q h) (omega (arith, body_rounds q n)) (λ start stop. refl)
            (λ start stop.
              mapped _ (λ a. (tx_of (used t), query_name q, a)) _ _
                (parser-Reads (enough (enough (enough n))) q h))

      -- A request that is written without running out of room into a valid buffer, with an id of
      -- twenty bytes, a target or info hash of twenty, a port of sixteen bits, a token of at most
      -- twenty bytes and a transaction of at most thirty-two, is read back whole by the parser of the
      -- frame with the parser of the query on its body, with enough fuel: they yield the transaction,
      -- the query's name and the arguments as they were sent, and stop where the writer stopped.
      pub request_round_trip :
          (n : ℕ) (q : Query) (b : Buffer)
          → IsSendable q
          → IsValid b
          → (written sp io insert t q b).0 ≡ true
          → ReadsBack b
              (written sp io insert t q)
              (krpc sp cut (much n) (with_frame (parser sp front insert (much n) q)))
              (tx_of (used t), query_name q, as_sent q)
      request_round_trip n q b h v done =
          round_trip _ _ (text (req_tree t (query_name q) (query_body q))) _ (written-Encodes q)
            (frame-Reads n q h) b v done
