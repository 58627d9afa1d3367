-- ===== src/Krpc/Parse/Searches.antt =====
-- The parsers of `find_node` and `sample_infohashes` of src/krpc_parse.cpp against the bodies that
-- src/krpc.cpp writes.
use btdht.Prelude.{ℕ, suc, ◌≡◌, refl, Bool, true, false, List, [], ◌∷◌, ◌++◌, arith, length}
use btdht.Prelude.Bytes.{Byte}
use btdht.Prelude.Text.{bytes}
use btdht.Id.{Key, zero_key}
use btdht.Sp.{Sp, SpLaws}
use btdht.Bencode.Spec.{string_text}
use btdht.Bencode.Tree.{str, list, dict, end, text}
use btdht.Bencode.Decode.Contract.{Reads}
use btdht.Bencode.Decode.Skips.{Skips}
use btdht.Bencode.Generic.{Front, FrontLaws}
use btdht.Krpc.Request.{Texts, Inserts, searching, want_trees}
use btdht.Krpc.Parse.Request.{
  FindNodeRequest, SampleInfohashesRequest, wanted, find_node_round, parse_find_node_request,
  sample_infohashes_round, parse_sample_infohashes_request,
}
use btdht.Krpc.Parse.Rounds.{
  skipped, both-Skips, again-ends, again-goes, finished, dict-Reads, any_field-Skips,
}
use btdht.Krpc.Parse.Fields.{got, past_key, pair_key-Reads, at_key-Skips, at_end-Skips, enough}
use btdht.Krpc.Parse.Wants.{want_texts, want-Reads, past_want, want_at_end}

-- What a request is before the parser fills it in, and behind each of its fields.
abbrev pub blank_find_node : FindNodeRequest
blank_find_node = record {
  sender = zero_key;
  target = zero_key;
  n4 = false;
  n6 = false;
  b_id = false;
  b_t = false;
  b_want = false;
}

abbrev pub find_node_id : Key → FindNodeRequest
find_node_id id = record blank_find_node { sender = id; b_id = true }

abbrev pub find_node_target : Key → Key → FindNodeRequest
find_node_target id target = record (find_node_id id) { target = target; b_t = true }

abbrev pub find_node_want : Key → Key → Bool → Bool → FindNodeRequest
find_node_want id target n4 n6 = record (find_node_target id target) {
  n4 = wanted (bytes "n4") (want_texts n4 n6) false;
  n6 = wanted (bytes "n6") (want_texts n4 n6) false;
  b_want = true;
}

abbrev pub blank_sample : SampleInfohashesRequest
blank_sample = record {
  sender = zero_key;
  target = zero_key;
  n4 = false;
  n6 = false;
  b_id = false;
  b_target = false;
  b_want = false;
}

abbrev pub sample_infohashes_id : Key → SampleInfohashesRequest
sample_infohashes_id id = record blank_sample { sender = id; b_id = true }

abbrev pub sample_infohashes_target : Key → Key → SampleInfohashesRequest
sample_infohashes_target id target = record (sample_infohashes_id id) {
  target = target;
  b_target = true;
}

abbrev pub sample_infohashes_want : Key → Key → Bool → Bool → SampleInfohashesRequest
sample_infohashes_want id target n4 n6 = record (sample_infohashes_target id target) {
  n4 = wanted (bytes "n4") (want_texts n4 n6) false;
  n6 = wanted (bytes "n6") (want_texts n4 n6) false;
  b_want = true;
}

module _ (sp : Sp) (laws : SpLaws sp) (front : Front) (fronts : FrontLaws front)
    (insert : Texts → List Byte → Texts) (inserts : Inserts insert) where
  find_node_ends :
      (fuel : ℕ) (s : FindNodeRequest) → Skips (find_node_round sp front insert fuel s) (b'e' ∷ [])
  unfolding find_node_round
  find_node_ends fuel s =
      (both-Skips _ _ _ (past_key sp _ _ (at_end-Skips sp laws _) _ _ _) (
        both-Skips _ _ _ (past_key sp _ _ (at_end-Skips sp laws _) _ _ _) (
          both-Skips _ _ _
            (past_want sp laws front fronts insert inserts _ _ _
              (want_at_end sp laws front fronts insert inserts) _)
            (any_field-Skips sp laws fuel s []))))

  find_node_takes_id :
      (fuel : ℕ) (id : Key)
      → length id ≡ 20
      → Reads
          (find_node_round sp front insert (enough fuel) blank_find_node)
          (string_text (bytes "id") ++ text (str id))
          (find_node_id id)
  unfolding find_node_round
  find_node_takes_id fuel id h =
      got _ (λ a. record blank_find_node { sender = a; b_id = true }) _ _ id
        (pair_key-Reads sp laws (bytes "id") (omega arith) zero_key id refl h)

  find_node_takes_target :
      (fuel : ℕ) (id : Key) (target : Key)
      → length target ≡ 20
      → Reads
          (find_node_round sp front insert (enough fuel) (find_node_id id))
          (string_text (bytes "target") ++ text (str target))
          (find_node_target id target)
  unfolding find_node_round
  find_node_takes_target fuel id target ht =
      skipped _ _ _ _
        (past_key sp _ _ (at_key-Skips sp laws (bytes "target") (omega arith) _ _ refl) _ _ _)
        (got _ (λ a. record (find_node_id id) { target = a; b_t = true }) _ _ target
          (pair_key-Reads sp laws (bytes "target") (omega arith) zero_key target refl ht))

  find_node_takes_want :
      (fuel : ℕ) (id : Key) (target : Key) (n4 : Bool) (n6 : Bool)
      → Reads
          (find_node_round sp front insert (enough fuel) (find_node_target id target))
          (string_text (bytes "want") ++ text (list (want_trees n4 n6)))
          (find_node_want id target n4 n6)
  unfolding find_node_round
  find_node_takes_want fuel id target n4 n6 =
      skipped _ _ _ _
        (past_key sp _ _ (at_key-Skips sp laws (bytes "want") (omega arith) _ _ refl) _ _ _)
        (skipped _ _ _ _
          (past_key sp _ _ (at_key-Skips sp laws (bytes "want") (omega arith) _ _ refl) _ _ _)
          (got _
            (λ a. record (find_node_target id target) {
              n4 = wanted (bytes "n4") a false;
              n6 = wanted (bytes "n6") a false;
              b_want = true;
            })
            _ _ (want_texts n4 n6)
            (want-Reads sp laws front fronts insert inserts (suc (suc (suc (suc fuel)))) n4 n6)))

  pub find_node_body :
      (fuel : ℕ) (id : Key) (target : Key) (n4 : Bool) (n6 : Bool)
      → length id ≡ 20
      → length target ≡ 20
      → Reads
          (parse_find_node_request sp front insert (enough fuel) blank_find_node)
          (text (dict (searching (bytes "target") id target n4 n6 end)))
          (find_node_want id target n4 n6)
  unfolding parse_find_node_request text
  find_node_body fuel id target n4 n6 h ht = dict-Reads sp laws _ _ _ (
      finished _ _ _ _ (find_node_want id target n4 n6) _
        (again-goes _ _ _ _ _ _ _ _ (find_node_takes_id fuel id h) (
          again-goes _ _ _ _ _ _ _ _ (find_node_takes_target fuel id target ht) (
            again-goes _ _ _ _ _ _ _ _ (find_node_takes_want fuel id target n4 n6) (
              again-ends _ _ _ _ (find_node_ends (enough fuel) (find_node_want id target n4 n6))))))
        (λ b. refl))

  sample_infohashes_ends :
      (fuel : ℕ) (s : SampleInfohashesRequest)
      → Skips (sample_infohashes_round sp front insert fuel s) (b'e' ∷ [])
  unfolding sample_infohashes_round
  sample_infohashes_ends fuel s =
      (both-Skips _ _ _ (past_key sp _ _ (at_end-Skips sp laws _) _ _ _) (
        both-Skips _ _ _ (past_key sp _ _ (at_end-Skips sp laws _) _ _ _) (
          both-Skips _ _ _
            (past_want sp laws front fronts insert inserts _ _ _
              (want_at_end sp laws front fronts insert inserts) _)
            (any_field-Skips sp laws fuel s []))))

  sample_infohashes_takes_id :
      (fuel : ℕ) (id : Key)
      → length id ≡ 20
      → Reads
          (sample_infohashes_round sp front insert (enough fuel) blank_sample)
          (string_text (bytes "id") ++ text (str id))
          (sample_infohashes_id id)
  unfolding sample_infohashes_round
  sample_infohashes_takes_id fuel id h =
      got _ (λ a. record blank_sample { sender = a; b_id = true }) _ _ id
        (pair_key-Reads sp laws (bytes "id") (omega arith) zero_key id refl h)

  sample_infohashes_takes_target :
      (fuel : ℕ) (id : Key) (target : Key)
      → length target ≡ 20
      → Reads
          (sample_infohashes_round sp front insert (enough fuel) (sample_infohashes_id id))
          (string_text (bytes "target") ++ text (str target))
          (sample_infohashes_target id target)
  unfolding sample_infohashes_round
  sample_infohashes_takes_target fuel id target ht =
      skipped _ _ _ _
        (past_key sp _ _ (at_key-Skips sp laws (bytes "target") (omega arith) _ _ refl) _ _ _)
        (got _ (λ a. record (sample_infohashes_id id) { target = a; b_target = true }) _ _ target
          (pair_key-Reads sp laws (bytes "target") (omega arith) zero_key target refl ht))

  sample_infohashes_takes_want :
      (fuel : ℕ) (id : Key) (target : Key) (n4 : Bool) (n6 : Bool)
      → Reads
          (sample_infohashes_round sp front insert
            (enough fuel)
            (sample_infohashes_target id target))
          (string_text (bytes "want") ++ text (list (want_trees n4 n6)))
          (sample_infohashes_want id target n4 n6)
  unfolding sample_infohashes_round
  sample_infohashes_takes_want fuel id target n4 n6 =
      skipped _ _ _ _
        (past_key sp _ _ (at_key-Skips sp laws (bytes "want") (omega arith) _ _ refl) _ _ _)
        (skipped _ _ _ _
          (past_key sp _ _ (at_key-Skips sp laws (bytes "want") (omega arith) _ _ refl) _ _ _)
          (got _
            (λ a. record (sample_infohashes_target id target) {
              n4 = wanted (bytes "n4") a false;
              n6 = wanted (bytes "n6") a false;
              b_want = true;
            })
            _ _ (want_texts n4 n6)
            (want-Reads sp laws front fronts insert inserts (suc (suc (suc (suc fuel)))) n4 n6)))

  pub sample_infohashes_body :
      (fuel : ℕ) (id : Key) (target : Key) (n4 : Bool) (n6 : Bool)
      → length id ≡ 20
      → length target ≡ 20
      → Reads
          (parse_sample_infohashes_request sp front insert (enough fuel) blank_sample)
          (text (dict (searching (bytes "target") id target n4 n6 end)))
          (sample_infohashes_want id target n4 n6)
  unfolding parse_sample_infohashes_request text
  sample_infohashes_body fuel id target n4 n6 h ht = dict-Reads sp laws _ _ _ (
      finished _ _ _ _ (sample_infohashes_want id target n4 n6) _
        (again-goes _ _ _ _ _ _ _ _ (sample_infohashes_takes_id fuel id h) (
          again-goes _ _ _ _ _ _ _ _ (sample_infohashes_takes_target fuel id target ht) (
            again-goes _ _ _ _ _ _ _ _ (sample_infohashes_takes_want fuel id target n4 n6) (
              again-ends _ _ _ _
                (sample_infohashes_ends (enough fuel) (sample_infohashes_want id target n4 n6))))))
        (λ b. refl))
