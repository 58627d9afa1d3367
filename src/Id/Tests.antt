-- ===== src/Id/Tests.antt =====
-- The theorems on node ids at concrete keys.
use Prim.Native.Nat.{min}
use btdht.Prelude.{◌≤◌, ◌≡◌, ◌↔◌, refl, true, false, ◌∷◌, arith, replicate}
use btdht.Id.{Key, bits, bit, rank, set_bit}
use btdht.Id.Rank.{IsPrefixLength, rank-IsPrefixLength, rank_ultrametric}
use btdht.Id.Bits.{IsKey, rank-self_iff, bit-set_bit}

-- The key 0, and the key whose first bit but three is set.
abbrev origin : Key
origin = replicate 20 0

abbrev near : Key
near = 16 ∷ replicate 19 0

rank-near : rank origin near ≡ 3
unfolding rank bit
rank-near = refl

rank-IsPrefixLength_example : IsPrefixLength origin near bits (rank origin near)
rank-IsPrefixLength_example = rank-IsPrefixLength origin near

rank_ultrametric_example : min (rank origin near) (rank near origin) ≤ rank origin origin
rank_ultrametric_example = rank_ultrametric origin near origin

origin-IsKey : IsKey origin
origin-IsKey = record { size = refl; bytes = omega arith }

near-IsKey : IsKey near
near-IsKey = record { size = refl; bytes = omega arith }

rank-self_iff_example : (rank origin near ≡ bits) ↔ (origin ≡ near)
rank-self_iff_example = rank-self_iff origin near origin-IsKey near-IsKey

bit-set_bit_example : bit (set_bit origin 0 true) 0 ≡ false
unfolding bit
bit-set_bit_example = bit-set_bit origin 0 0 true origin-IsKey (omega arith) (omega arith)
