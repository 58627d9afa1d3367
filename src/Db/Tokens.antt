-- ===== src/Db/Tokens.antt =====
-- How long a token of src/db.cpp is accepted.
use btdht.Prelude.{
  ℕ, ◌+◌, ◌/◌, ◌%◌, ◌≤◌, ◌<◌, ◌≡◌, ◌≢◌, ◌⊎◌, inl, inr, refl, sym, ap, ◌∙◌, Bool, true, false, not,
  Bool-cases, ltb, ltb→lt, if◌then◌else◌, List, get_or, replicate, arith,
}
use btdht.Prelude.Bytes.{Byte, bytes_eq, bytes_eq_refl, bytes_eq_sound}
use btdht.Address.{Contact, token_eq, token_is_valid}
use btdht.Db.{
  Hash, IsHash, DhtMetaDatabase, le32, get_token_key, hash_of, create_token, mint_token,
  is_valid_token,
}

-- The steps between two uses of a token: time passes, and tokens are minted for others.
pub data Runs (hash : Hash) (refresh : ℕ) (d : DhtMetaDatabase) : DhtMetaDatabase → Type 0 where
  stay : Runs hash refresh d d
  wait :
      {e : DhtMetaDatabase} (n : ℕ)
      → Runs hash refresh d e
      → e.now ≤ n
      → Runs hash refresh d (record e { now = n })
  mint :
      {e : DhtMetaDatabase} (r : ℕ) (remote : Contact)
      → Runs hash refresh d e
      → Runs hash refresh d (mint_token hash refresh e r remote).1

-- The key `k` that was new at the time `n` is new still, or is the old one and was replaced at `n` or
-- later; or more than the lifetime of a key has passed.
abbrev Known : ℕ → ℕ → ℕ → DhtMetaDatabase → Type 0
Known refresh k n d =
    (n ≤ d.now)
    × ((d.new_key.key ≡ k)
        ⊎ ((d.old_key.key ≡ k) × (n ≤ d.new_key.created))
        ⊎ (n + refresh < d.now))

get_token_key-Known :
    (refresh k n : ℕ) (d : DhtMetaDatabase) (r : ℕ)
    → Known refresh k n d
    → Known refresh k n (get_token_key refresh d r)
unfolding get_token_key
get_token_key-Known refresh k n d r h =
    elim (Bool-cases (ltb (d.new_key.created + refresh) d.now)) [
      | inl e ↦ rw e (h.0, replaced h.1 (ltb→lt (d.new_key.created + refresh) d.now e))
      | inr e ↦ rw e h
    ]
  where
    replaced :
        (d.new_key.key ≡ k)
          ⊎ ((d.old_key.key ≡ k) × (n ≤ d.new_key.created))
          ⊎ (n + refresh < d.now)
        → d.new_key.created + refresh < d.now
        → (r ≡ k) ⊎ ((d.new_key.key ≡ k) × (n ≤ d.now)) ⊎ (n + refresh < d.now)
    replaced (inl e) late = inr (inl (e, h.0))
    replaced (inr (inl old)) late = inr (inr (omega (arith, old.1, late)))
    replaced (inr (inr passed)) late = inr (inr passed)

get_token_key-now :
    (refresh : ℕ) (d : DhtMetaDatabase) (r : ℕ) → (get_token_key refresh d r).now ≡ d.now
unfolding get_token_key
get_token_key-now refresh d r = elim (Bool-cases (ltb (d.new_key.created + refresh) d.now)) [
  | inl e ↦ rw e refl
  | inr e ↦ rw e refl
]

Runs-Known :
    (hash : Hash) (refresh k n : ℕ) {d e : DhtMetaDatabase}
    → Known refresh k n d
    → Runs hash refresh d e
    → Known refresh k n e
unfolding mint_token
Runs-Known hash refresh k n h stay = h
Runs-Known hash refresh k n h (wait m before le) =
    let earlier = Runs-Known hash refresh k n h before in
    (omega (arith, earlier.0, le), still earlier.1 le)
  where
    still :
        {a b x now : ℕ}
        → (a ≡ k) ⊎ ((b ≡ k) × (n ≤ x)) ⊎ (n + refresh < now)
        → now ≤ m
        → (a ≡ k) ⊎ ((b ≡ k) × (n ≤ x)) ⊎ (n + refresh < m)
    still (inl e) l = inl e
    still (inr (inl old)) l = inr (inl old)
    still (inr (inr passed)) l = inr (inr (omega (arith, passed, l)))
Runs-Known hash refresh k n h (mint {e = e} r remote before) =
    get_token_key-Known refresh k n e r (Runs-Known hash refresh k n h before)

le32-zero : (h : ℕ) → h < 4294967296 → le32 h ≡ replicate 4 0 → h ≡ 0
le32-zero h b e =
    let d0 : h % 256 ≡ 0 = ap (λ (l : List Byte). get_or l 0 0) e in
    let d1 : h / 256 % 256 ≡ 0 = ap (λ (l : List Byte). get_or l 1 0) e in
    let d2 : h / 65536 % 256 ≡ 0 = ap (λ (l : List Byte). get_or l 2 0) e in
    let d3 : h / 16777216 % 256 ≡ 0 = ap (λ (l : List Byte). get_or l 3 0) e in
    omega (arith, b, d0, d1, d2, d3)

module _ (hash : Hash) (bits : IsHash hash) where
  -- A token is no token exactly if its hash is 0.
  create_token-valid :
      (k : ℕ) (remote : Contact)
      → hash_of hash k remote ≢ 0
      → token_is_valid (create_token hash k remote) ≡ true
  unfolding token_is_valid
  create_token-valid k remote nz =
      elim (Bool-cases (bytes_eq (replicate 4 0) (le32 (hash_of hash k remote)))) [
        | inl e ↦ absurd (
            nz (
              le32-zero (hash_of hash k remote) (bits _ _)
                (sym (bytes_eq_sound (replicate 4 0) (le32 (hash_of hash k remote)) e))))
        | inr e ↦ ap not e
      ]

  token_eq_refl :
      (k : ℕ) (remote : Contact)
      → token_eq (create_token hash k remote) (create_token hash k remote) ≡ true
  unfolding token_eq
  token_eq_refl k remote = bytes_eq_refl (le32 (hash_of hash k remote))

  accepted_new :
      (d : DhtMetaDatabase) (remote : Contact) (k : ℕ)
      → hash_of hash k remote ≢ 0
      → d.new_key.key ≡ k
      → is_valid_token hash d remote (create_token hash k remote) ≡ true
  unfolding is_valid_token
  accepted_new d remote k nz e =
      rw
        (
          create_token-valid k remote nz,
          ap (λ j. token_eq (create_token hash j remote) (create_token hash k remote)) e
              ∙ token_eq_refl k remote,
        )
        refl

  accepted_old :
      (d : DhtMetaDatabase) (remote : Contact) (k : ℕ)
      → hash_of hash k remote ≢ 0
      → d.old_key.key ≡ k
      → is_valid_token hash d remote (create_token hash k remote) ≡ true
  unfolding is_valid_token
  accepted_old d remote k nz e =
      ap
        (λ (b : Bool).
          if b
          then if token_eq (create_token hash d.new_key.key remote) (create_token hash k remote)
            then true
            else token_eq (create_token hash d.old_key.key remote) (create_token hash k remote)
          else false)
        (create_token-valid k remote nz)
      ∙ either (token_eq (create_token hash d.new_key.key remote) (create_token hash k remote)) (
          ap (λ j. token_eq (create_token hash j remote) (create_token hash k remote)) e
          ∙ token_eq_refl k remote)
    where
      either : (b : Bool) {c : Bool} → c ≡ true → (if b then true else c) ≡ true
      either true h = refl
      either false h = h

  -- A token is accepted from its contact for at least `token_key_refresh` after it was minted, whatever
  -- tokens are minted in between, if its hash is not 0.
  pub minted_token-accepted :
      (refresh : ℕ) (d : DhtMetaDatabase) (r : ℕ) (remote : Contact) (e : DhtMetaDatabase)
      → hash_of hash (mint_token hash refresh d r remote).1.new_key.key remote ≢ 0
      → Runs hash refresh (mint_token hash refresh d r remote).1 e
      → e.now ≤ d.now + refresh
      → is_valid_token hash e remote (mint_token hash refresh d r remote).0 ≡ true
  unfolding mint_token
  minted_token-accepted refresh d r remote e nz run le =
      let d' = get_token_key refresh d r in
      let same_time : d'.now ≡ d.now = get_token_key-now refresh d r in
      decide
        (Runs-Known hash refresh d'.new_key.key d.now (omega (arith, same_time), inl refl) run).1
    where
      decide :
          (e.new_key.key ≡ (get_token_key refresh d r).new_key.key)
            ⊎ ((e.old_key.key ≡ (get_token_key refresh d r).new_key.key)
                × (d.now ≤ e.new_key.created))
            ⊎ (d.now + refresh < e.now)
          → is_valid_token hash e remote
              (create_token hash (get_token_key refresh d r).new_key.key remote)
            ≡ true
      decide (inl new) = accepted_new e remote (get_token_key refresh d r).new_key.key nz new
      decide (inr (inl old)) =
          accepted_old e remote (get_token_key refresh d r).new_key.key nz old.0
      decide (inr (inr passed)) = absurd (omega (arith, passed, le))
