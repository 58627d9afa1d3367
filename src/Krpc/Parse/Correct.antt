-- ===== src/Krpc/Parse/Correct.antt =====
-- The parsers of `ping` and `announce_peer` of src/krpc_parse.cpp against the bodies that src/krpc.cpp
-- writes.
use btdht.Prelude.{
  ℕ, ◌^◌, ◌≤◌, ◌<◌, ◌≡◌, refl, Bool, true, false, none, List, [], ◌∷◌, ◌++◌, arith, length,
}
use btdht.Prelude.Bytes.{Byte}
use btdht.Prelude.Text.{bytes}
use btdht.Id.{Key, zero_key}
use btdht.Sp.{Sp, SpLaws}
use btdht.Bencode.Spec.{string_text}
use btdht.Bencode.Tree.{nat, str, dict, end, field, text}
use btdht.Bencode.Stream.Pairs.{flag}
use btdht.Bencode.Decode.Contract.{Reads}
use btdht.Bencode.Decode.Skips.{Skips}
use btdht.Krpc.Request.{announcing}
use btdht.Krpc.Parse.Request.{
  PingRequest, AnnouncePeerRequest, ping_round, parse_ping_request, announce_peer_round,
  parse_announce_peer_request,
}
use btdht.Krpc.Parse.Rounds.{
  skipped, both-Skips, again-ends, again-goes, finished, dict-Reads, any_field-Skips,
}
use btdht.Krpc.Parse.Fields.{
  token_of, got, past_key, past_flag, past_u16, past_token, past_contact, past_name, pair_key-Reads,
  pair_token-Reads, pair_u16-Reads, pair_flag-Reads, at_key-Skips, at_end-Skips, enough,
}

-- What a request is before the parser fills it in, and behind each of its fields.
abbrev pub blank_ping : PingRequest
blank_ping = record { sender = zero_key; ip_vote = none; b_id = false; b_ip = false }

abbrev pub ping_id : Key → PingRequest
ping_id id = record blank_ping { sender = id; b_id = true }

abbrev pub blank_announce : AnnouncePeerRequest
blank_announce = record {
  sender = zero_key;
  implied_port = false;
  infohash = zero_key;
  port = 0;
  token = token_of [];
  seed = false;
  name = none;
  b_id = false;
  b_ip = false;
  b_ih = false;
  b_p = false;
  b_t = false;
  b_s = false;
  b_n = false;
}

abbrev pub announce_peer_id : Key → AnnouncePeerRequest
announce_peer_id id = record blank_announce { sender = id; b_id = true }

abbrev pub announce_peer_implied_port : Key → Bool → AnnouncePeerRequest
announce_peer_implied_port id implied = record (announce_peer_id id) {
  implied_port = implied;
  b_ip = true;
}

abbrev pub announce_peer_info_hash : Key → Bool → Key → AnnouncePeerRequest
announce_peer_info_hash id implied infohash = record (announce_peer_implied_port id implied) {
  infohash = infohash;
  b_ih = true;
}

abbrev pub announce_peer_port : Key → Bool → Key → ℕ → AnnouncePeerRequest
announce_peer_port id implied infohash port = record (announce_peer_info_hash id implied infohash) {
  port = port;
  b_p = true;
}

abbrev pub announce_peer_token : Key → Bool → Key → ℕ → List Byte → AnnouncePeerRequest
announce_peer_token id implied infohash port token =
    record (announce_peer_port id implied infohash port) { token = (token_of token); b_t = true }

module _ (sp : Sp) (laws : SpLaws sp) where
  ping_ends : (fuel : ℕ) (s : PingRequest) → Skips (ping_round sp fuel s) (b'e' ∷ [])
  unfolding ping_round
  ping_ends fuel s =
      (both-Skips _ _ _ (past_key sp _ _ (at_end-Skips sp laws _) _ _ _) (
        both-Skips _ _ _ (past_contact sp _ _ (at_end-Skips sp laws _) _ _)
          (any_field-Skips sp laws fuel s [])))

  ping_takes_id :
      (fuel : ℕ) (id : Key)
      → length id ≡ 20
      → Reads
          (ping_round sp (enough fuel) blank_ping)
          (string_text (bytes "id") ++ text (str id))
          (ping_id id)
  unfolding ping_round
  ping_takes_id fuel id h =
      got _ (λ a. record blank_ping { sender = a; b_id = true }) _ _ id
        (pair_key-Reads sp laws (bytes "id") (omega arith) zero_key id refl h)

  pub ping_body :
      (fuel : ℕ) (id : Key)
      → length id ≡ 20
      → Reads
          (parse_ping_request sp (enough fuel) blank_ping)
          (text (dict (field (bytes "id") (str id) end)))
          (ping_id id)
  unfolding parse_ping_request text
  ping_body fuel id h = dict-Reads sp laws _ _ _ (
      finished _ _ _ _ (ping_id id) _
        (again-goes _ _ _ _ _ _ _ _ (ping_takes_id fuel id h)
          (again-ends _ _ _ _ (ping_ends (enough fuel) (ping_id id))))
        (λ b. refl))

  announce_peer_ends :
      (fuel : ℕ) (s : AnnouncePeerRequest) → Skips (announce_peer_round sp fuel s) (b'e' ∷ [])
  unfolding announce_peer_round
  announce_peer_ends fuel s =
      (both-Skips _ _ _ (past_key sp _ _ (at_end-Skips sp laws _) _ _ _) (
        both-Skips _ _ _ (past_flag sp _ _ (at_end-Skips sp laws _) _ _) (
          both-Skips _ _ _ (past_key sp _ _ (at_end-Skips sp laws _) _ _ _) (
            both-Skips _ _ _ (past_u16 sp _ _ (at_end-Skips sp laws _) _ _) (
              both-Skips _ _ _ (past_token sp _ _ (at_end-Skips sp laws _) _ _) (
                both-Skips _ _ _ (past_flag sp _ _ (at_end-Skips sp laws _) _ _) (
                  both-Skips _ _ _ (past_name sp _ _ (at_end-Skips sp laws _) _ _)
                    (any_field-Skips sp laws fuel s []))))))))

  announce_peer_takes_id :
      (fuel : ℕ) (id : Key)
      → length id ≡ 20
      → Reads
          (announce_peer_round sp (enough fuel) blank_announce)
          (string_text (bytes "id") ++ text (str id))
          (announce_peer_id id)
  unfolding announce_peer_round
  announce_peer_takes_id fuel id h =
      got _ (λ a. record blank_announce { sender = a; b_id = true }) _ _ id
        (pair_key-Reads sp laws (bytes "id") (omega arith) zero_key id refl h)

  announce_peer_takes_implied_port :
      (fuel : ℕ) (id : Key) (implied : Bool)
      → Reads
          (announce_peer_round sp (enough fuel) (announce_peer_id id))
          (string_text (bytes "implied_port") ++ text (flag implied))
          (announce_peer_implied_port id implied)
  unfolding announce_peer_round
  announce_peer_takes_implied_port fuel id implied =
      skipped _ _ _ _
        (past_key sp _ _ (at_key-Skips sp laws (bytes "implied_port") (omega arith) _ _ refl) _ _ _)
        (got _ (λ a. record (announce_peer_id id) { implied_port = a; b_ip = true }) _ _ implied
          (pair_flag-Reads sp laws (bytes "implied_port") (omega arith) implied))

  announce_peer_takes_info_hash :
      (fuel : ℕ) (id : Key) (implied : Bool) (infohash : Key)
      → length infohash ≡ 20
      → Reads
          (announce_peer_round sp (enough fuel) (announce_peer_implied_port id implied))
          (string_text (bytes "info_hash") ++ text (str infohash))
          (announce_peer_info_hash id implied infohash)
  unfolding announce_peer_round
  announce_peer_takes_info_hash fuel id implied infohash ht =
      skipped _ _ _ _
        (past_key sp _ _ (at_key-Skips sp laws (bytes "info_hash") (omega arith) _ _ refl) _ _ _)
        (skipped _ _ _ _
          (past_flag sp _ _ (at_key-Skips sp laws (bytes "info_hash") (omega arith) _ _ refl) _ _)
          (got _ (λ a. record (announce_peer_implied_port id implied) { infohash = a; b_ih = true })
            _ _ infohash
            (pair_key-Reads sp laws (bytes "info_hash") (omega arith) zero_key infohash refl ht)))

  announce_peer_takes_port :
      (fuel : ℕ) (id : Key) (implied : Bool) (infohash : Key) (port : ℕ)
      → port < 2 ^ 16
      → Reads
          (announce_peer_round sp (enough fuel) (announce_peer_info_hash id implied infohash))
          (string_text (bytes "port") ++ text (nat port))
          (announce_peer_port id implied infohash port)
  unfolding announce_peer_round
  announce_peer_takes_port fuel id implied infohash port hp =
      skipped _ _ _ _
        (past_key sp _ _ (at_key-Skips sp laws (bytes "port") (omega arith) _ _ refl) _ _ _)
        (skipped _ _ _ _
          (past_flag sp _ _ (at_key-Skips sp laws (bytes "port") (omega arith) _ _ refl) _ _)
          (skipped _ _ _ _
            (past_key sp _ _ (at_key-Skips sp laws (bytes "port") (omega arith) _ _ refl) _ _ _)
            (got _
              (λ a. record (announce_peer_info_hash id implied infohash) { port = a; b_p = true }) _
              _ port (pair_u16-Reads sp laws (bytes "port") (omega arith) port hp))))

  announce_peer_takes_token :
      (fuel : ℕ) (id : Key) (implied : Bool) (infohash : Key) (port : ℕ) (token : List Byte)
      → length token ≤ 20
      → Reads
          (announce_peer_round sp (enough fuel) (announce_peer_port id implied infohash port))
          (string_text (bytes "token") ++ text (str token))
          (announce_peer_token id implied infohash port token)
  unfolding announce_peer_round
  announce_peer_takes_token fuel id implied infohash port token hk =
      skipped _ _ _ _
        (past_key sp _ _ (at_key-Skips sp laws (bytes "token") (omega arith) _ _ refl) _ _ _)
        (skipped _ _ _ _
          (past_flag sp _ _ (at_key-Skips sp laws (bytes "token") (omega arith) _ _ refl) _ _)
          (skipped _ _ _ _
            (past_key sp _ _ (at_key-Skips sp laws (bytes "token") (omega arith) _ _ refl) _ _ _)
            (skipped _ _ _ _
              (past_u16 sp _ _ (at_key-Skips sp laws (bytes "token") (omega arith) _ _ refl) _ _)
              (got _
                (λ a. record (announce_peer_port id implied infohash port) {
                  token = a;
                  b_t = true;
                })
                _ _ (token_of token)
                (pair_token-Reads sp laws (bytes "token") (omega arith) token hk)))))

  pub announce_peer_body :
      (fuel : ℕ) (id : Key) (implied : Bool) (infohash : Key) (port : ℕ) (token : List Byte)
      → length id ≡ 20
      → length infohash ≡ 20
      → port < 2 ^ 16
      → length token ≤ 20
      → Reads
          (parse_announce_peer_request sp (enough fuel) blank_announce)
          (text (dict (announcing id implied infohash port token)))
          (announce_peer_token id implied infohash port token)
  unfolding parse_announce_peer_request text
  announce_peer_body fuel id implied infohash port token h ht hp hk = dict-Reads sp laws _ _ _ (
      finished _ _ _ _ (announce_peer_token id implied infohash port token) _
        (again-goes _ _ _ _ _ _ _ _ (announce_peer_takes_id fuel id h) (
          again-goes _ _ _ _ _ _ _ _ (announce_peer_takes_implied_port fuel id implied) (
            again-goes _ _ _ _ _ _ _ _ (announce_peer_takes_info_hash fuel id implied infohash ht) (
              again-goes _ _ _ _ _ _ _ _ (announce_peer_takes_port fuel id implied infohash port hp)
                (again-goes _ _ _ _ _ _ _ _
                  (announce_peer_takes_token fuel id implied infohash port token hk)
                  (again-ends _ _ _ _ (
                    announce_peer_ends (enough fuel)
                      (announce_peer_token id implied infohash port token))))))))
        (λ b. refl))
