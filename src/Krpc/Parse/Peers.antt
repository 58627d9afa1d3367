-- ===== src/Krpc/Parse/Peers.antt =====
-- The parser of `get_peers` of src/krpc_parse.cpp against the bodies that src/krpc.cpp writes, with
-- and without the flag `scrape`.
use btdht.Prelude.{ℕ, suc, ◌≡◌, refl, Bool, true, false, none, List, [], ◌∷◌, ◌++◌, arith, length}
use btdht.Prelude.Bytes.{Byte}
use btdht.Prelude.Text.{bytes}
use btdht.Id.{Key, zero_key}
use btdht.Sp.{Sp, SpLaws}
use btdht.Bencode.Spec.{string_text}
use btdht.Bencode.Tree.{str, list, dict, end, field, text}
use btdht.Bencode.Stream.Pairs.{flag}
use btdht.Bencode.Decode.Contract.{Reads}
use btdht.Bencode.Decode.Skips.{Skips}
use btdht.Bencode.Generic.{Front, FrontLaws}
use btdht.Krpc.Request.{Texts, Inserts, searching, want_trees}
use btdht.Krpc.Parse.Request.{GetPeersRequest, wanted, get_peers_round, parse_get_peers_request}
use btdht.Krpc.Parse.Rounds.{
  skipped, both-Skips, again-ends, again-goes, finished, dict-Reads, any_field-Skips,
}
use btdht.Krpc.Parse.Fields.{
  got, past_key, past_flag, pair_key-Reads, pair_flag-Reads, at_key-Skips, at_end-Skips, enough,
}
use btdht.Krpc.Parse.Wants.{want_texts, want-Reads, past_want, want_at_end}

-- What a request is before the parser fills it in, and behind each of its fields.
abbrev pub blank_get_peers : GetPeersRequest
blank_get_peers = record {
  sender = zero_key;
  infohash = zero_key;
  noseed = none;
  scrape = false;
  bootstrap = false;
  n4 = false;
  n6 = false;
  b_id = false;
  b_ih = false;
  b_ns = false;
  b_sc = false;
  b_bs = false;
  b_want = false;
}

abbrev pub get_peers_id : Key → GetPeersRequest
get_peers_id id = record blank_get_peers { sender = id; b_id = true }

abbrev pub get_peers_info_hash : Key → Key → GetPeersRequest
get_peers_info_hash id infohash = record (get_peers_id id) { infohash = infohash; b_ih = true }

abbrev pub get_peers_want : Key → Key → Bool → Bool → GetPeersRequest
get_peers_want id infohash n4 n6 = record (get_peers_info_hash id infohash) {
  n4 = wanted (bytes "n4") (want_texts n4 n6) false;
  n6 = wanted (bytes "n6") (want_texts n4 n6) false;
  b_want = true;
}

abbrev pub get_peers_scrape : Key → Key → Bool → Bool → Bool → GetPeersRequest
get_peers_scrape id infohash n4 n6 scrape = record (get_peers_want id infohash n4 n6) {
  scrape = scrape;
  b_sc = true;
}

module _ (sp : Sp) (laws : SpLaws sp) (front : Front) (fronts : FrontLaws front)
    (insert : Texts → List Byte → Texts) (inserts : Inserts insert) where
  get_peers_ends :
      (fuel : ℕ) (s : GetPeersRequest) → Skips (get_peers_round sp front insert fuel s) (b'e' ∷ [])
  unfolding get_peers_round
  get_peers_ends fuel s =
      (both-Skips _ _ _ (past_key sp _ _ (at_end-Skips sp laws _) _ _ _) (
        both-Skips _ _ _ (past_key sp _ _ (at_end-Skips sp laws _) _ _ _) (
          both-Skips _ _ _ (past_flag sp _ _ (at_end-Skips sp laws _) _ _) (
            both-Skips _ _ _ (past_flag sp _ _ (at_end-Skips sp laws _) _ _) (
              both-Skips _ _ _
                (past_want sp laws front fronts insert inserts _ _ _
                  (want_at_end sp laws front fronts insert inserts) _)
                (both-Skips _ _ _ (past_flag sp _ _ (at_end-Skips sp laws _) _ _)
                  (any_field-Skips sp laws fuel s [])))))))

  get_peers_takes_id :
      (fuel : ℕ) (id : Key)
      → length id ≡ 20
      → Reads
          (get_peers_round sp front insert (enough fuel) blank_get_peers)
          (string_text (bytes "id") ++ text (str id))
          (get_peers_id id)
  unfolding get_peers_round
  get_peers_takes_id fuel id h =
      got _ (λ a. record blank_get_peers { sender = a; b_id = true }) _ _ id
        (pair_key-Reads sp laws (bytes "id") (omega arith) zero_key id refl h)

  get_peers_takes_info_hash :
      (fuel : ℕ) (id : Key) (infohash : Key)
      → length infohash ≡ 20
      → Reads
          (get_peers_round sp front insert (enough fuel) (get_peers_id id))
          (string_text (bytes "info_hash") ++ text (str infohash))
          (get_peers_info_hash id infohash)
  unfolding get_peers_round
  get_peers_takes_info_hash fuel id infohash ht =
      skipped _ _ _ _
        (past_key sp _ _ (at_key-Skips sp laws (bytes "info_hash") (omega arith) _ _ refl) _ _ _)
        (got _ (λ a. record (get_peers_id id) { infohash = a; b_ih = true }) _ _ infohash
          (pair_key-Reads sp laws (bytes "info_hash") (omega arith) zero_key infohash refl ht))

  get_peers_takes_want :
      (fuel : ℕ) (id : Key) (infohash : Key) (n4 : Bool) (n6 : Bool)
      → Reads
          (get_peers_round sp front insert (enough fuel) (get_peers_info_hash id infohash))
          (string_text (bytes "want") ++ text (list (want_trees n4 n6)))
          (get_peers_want id infohash n4 n6)
  unfolding get_peers_round
  get_peers_takes_want fuel id infohash n4 n6 =
      skipped _ _ _ _
        (past_key sp _ _ (at_key-Skips sp laws (bytes "want") (omega arith) _ _ refl) _ _ _)
        (skipped _ _ _ _
          (past_key sp _ _ (at_key-Skips sp laws (bytes "want") (omega arith) _ _ refl) _ _ _)
          (skipped _ _ _ _
            (past_flag sp _ _ (at_key-Skips sp laws (bytes "want") (omega arith) _ _ refl) _ _)
            (skipped _ _ _ _
              (past_flag sp _ _ (at_key-Skips sp laws (bytes "want") (omega arith) _ _ refl) _ _)
              (got _
                (λ a. record (get_peers_info_hash id infohash) {
                  n4 = wanted (bytes "n4") a false;
                  n6 = wanted (bytes "n6") a false;
                  b_want = true;
                })
                _ _ (want_texts n4 n6)
                (want-Reads sp laws front fronts insert inserts (suc (suc (suc (suc fuel)))) n4
                  n6)))))

  pub get_peers_body :
      (fuel : ℕ) (id : Key) (infohash : Key) (n4 : Bool) (n6 : Bool)
      → length id ≡ 20
      → length infohash ≡ 20
      → Reads
          (parse_get_peers_request sp front insert (enough fuel) blank_get_peers)
          (text (dict (searching (bytes "info_hash") id infohash n4 n6 end)))
          (get_peers_want id infohash n4 n6)
  unfolding parse_get_peers_request text
  get_peers_body fuel id infohash n4 n6 h ht = dict-Reads sp laws _ _ _ (
      finished _ _ _ _ (get_peers_want id infohash n4 n6) _
        (again-goes _ _ _ _ _ _ _ _ (get_peers_takes_id fuel id h) (
          again-goes _ _ _ _ _ _ _ _ (get_peers_takes_info_hash fuel id infohash ht) (
            again-goes _ _ _ _ _ _ _ _ (get_peers_takes_want fuel id infohash n4 n6) (
              again-ends _ _ _ _
                (get_peers_ends (enough fuel) (get_peers_want id infohash n4 n6))))))
        (λ b. refl))

  get_peers_takes_scrape :
      (fuel : ℕ) (id : Key) (infohash : Key) (n4 : Bool) (n6 : Bool) (scrape : Bool)
      → Reads
          (get_peers_round sp front insert (enough fuel) (get_peers_want id infohash n4 n6))
          (string_text (bytes "scrape") ++ text (flag scrape))
          (get_peers_scrape id infohash n4 n6 scrape)
  unfolding get_peers_round
  get_peers_takes_scrape fuel id infohash n4 n6 scrape =
      skipped _ _ _ _
        (past_key sp _ _ (at_key-Skips sp laws (bytes "scrape") (omega arith) _ _ refl) _ _ _)
        (skipped _ _ _ _
          (past_key sp _ _ (at_key-Skips sp laws (bytes "scrape") (omega arith) _ _ refl) _ _ _)
          (skipped _ _ _ _
            (past_flag sp _ _ (at_key-Skips sp laws (bytes "scrape") (omega arith) _ _ refl) _ _)
            (got _ (λ a. record (get_peers_want id infohash n4 n6) { scrape = a; b_sc = true }) _ _
              scrape (pair_flag-Reads sp laws (bytes "scrape") (omega arith) scrape))))

  pub get_peers_scrape_body :
      (fuel : ℕ) (id : Key) (infohash : Key) (n4 : Bool) (n6 : Bool) (scrape : Bool)
      → length id ≡ 20
      → length infohash ≡ 20
      → Reads
          (parse_get_peers_request sp front insert (enough fuel) blank_get_peers)
          (text (
            dict (
              searching
                (bytes "info_hash")
                id
                infohash
                n4
                n6
                (field (bytes "scrape") (flag scrape) end))))
          (get_peers_scrape id infohash n4 n6 scrape)
  unfolding parse_get_peers_request text
  get_peers_scrape_body fuel id infohash n4 n6 scrape h ht = dict-Reads sp laws _ _ _ (
      finished _ _ _ _ (get_peers_scrape id infohash n4 n6 scrape) _
        (again-goes _ _ _ _ _ _ _ _ (get_peers_takes_id fuel id h) (
          again-goes _ _ _ _ _ _ _ _ (get_peers_takes_info_hash fuel id infohash ht) (
            again-goes _ _ _ _ _ _ _ _ (get_peers_takes_want fuel id infohash n4 n6) (
              again-goes _ _ _ _ _ _ _ _ (get_peers_takes_scrape fuel id infohash n4 n6 scrape) (
                again-ends _ _ _ _
                  (get_peers_ends (enough fuel) (get_peers_scrape id infohash n4 n6 scrape)))))))
        (λ b. refl))
