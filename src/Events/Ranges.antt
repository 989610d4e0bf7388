-- ===== src/Events/Ranges.antt =====
-- The ranges of blocks that `splitRange` makes.
use native.Mathlib.Nat.{div-add-mod, mod-lt}
use rif_relay_server.Base.{
  ap, ◌||◌, ℕ, zero, suc, ◌+◌, ◌-◌, ◌*◌, ◌/◌, ◌%◌, ◌≤◌, ◌<◌, ◌≡◌, inl, inr, refl, sym, ap, true,
  false, List, [], ◌∷◌, ltb, leb, ◌==◌, if◌then◌else◌, arith, In, All, Bool-cases,
}
use rif_relay_server.Outcome.{ok}
use rif_relay_server.Events.{BlockRange, ceil_div, range_at, ranges_from, split_range}

mul_suc : (d i : ℕ) → d * (i + 1) ≡ d * i + d
mul_suc d i = omega arith

-- Rounded up: no less than the quotient, and by less than one more.
ceil_div_lem : (a d : ℕ) → 0 < d → (a ≤ d * ceil_div a d) × (d * ceil_div a d < a + d)
ceil_div_lem a d h =
    let whole = div-add-mod a d in
    let small : a % d < d = mod-lt a h in
    let next = mul_suc d (a / d) in
    elim (Bool-cases (a % d == 0)) [
      | inl e ↦ let z : a % d ≡ 0 = ground arith in rw e (omega arith, omega arith)
      | inr e ↦ let z : 0 < a % d = ground arith in rw e (omega arith, omega arith)
    ]

-- Every range begins at the block where the one before it ends.
abbrev pub IsChained : List BlockRange → Type 0
IsChained [] = Unit
IsChained (r ∷ []) = Unit
IsChained (r ∷ s ∷ rs) = (s.from ≡ r.to) × IsChained (s ∷ rs)

in_range :
    (b max from d : ℕ)
    → b ≤ max
    → leb b (from + d) ≡ true
    → b ≤ (if ltb max (from + d) then max else from + d)
in_range b max from d h e = ground arith

-- A block from the range of the index on, within those that are left, lies in one of them.
ranges_from_covers :
    (min max d index left b : ℕ)
    → b ≤ max
    → min + d * index ≤ b
    → b ≤ min + d * (index + left)
    → 0 < left
    → (r : BlockRange) × In r (ranges_from min max d index left) × (r.from ≤ b) × (b ≤ r.to)
ranges_from_covers min max d index zero b h k l z = absurd (omega arith)
ranges_from_covers min max d index (suc left) b h k l z =
    elim (Bool-cases (leb b (min + d * index + d))) [
      | inl e ↦ (range_at min max d index, inl refl, k, in_range b max (min + d * index) d h e)
      | inr e ↦
          let past : min + d * index + d < b = ground arith in
          let more = some_left (min + d * index) d left b past (omega arith) in
          let (r, m, lo, hi) =
            ranges_from_covers min max d (index + 1) left b h (omega arith) (omega arith) more in
          (r, inr m, lo, hi)
    ]
  where
    some_left : (from d left b : ℕ) → from + d < b → b ≤ from + d + d * left → 0 < left
    some_left from d zero b h k = absurd (omega arith)
    some_left from d (suc left) b h k = omega arith

-- A range lies between the bounds, and its last block is no more than the given length after its first.
abbrev pub IsWithin : ℕ → ℕ → ℕ → BlockRange → Type 0
IsWithin min max d r = (min ≤ r.from) × (r.from ≤ r.to) × (r.to ≤ max) × (r.to ≤ r.from + d)

ranges_from-IsWithin :
    (min max d index left : ℕ)
    → min + d * (index + left) < max + d
    → All (IsWithin min max d) (ranges_from min max d index left)
ranges_from-IsWithin min max d index zero h = tt
ranges_from-IsWithin min max d index (suc left) h = (
  first (min + d * index) (omega arith) (room (min + d * index) d max (d * left) (omega arith)),
  ranges_from-IsWithin min max d (index + 1) left (omega arith),
)
  where
    room : (from d max more : ℕ) → from + d + more < max + d → from ≤ max
    room from d max more h = omega arith

    first :
        (from : ℕ)
        → min ≤ from
        → from ≤ max
        → IsWithin min max d
            (record { from = from; to = if ltb max (from + d) then max else from + d })
    first from h k = ground arith

ranges_from-IsChained :
    (min max d index left : ℕ)
    → min + d * (index + left) < max + d
    → IsChained (ranges_from min max d index left)
ranges_from-IsChained min max d index zero h = tt
ranges_from-IsChained min max d index (suc zero) h = tt
ranges_from-IsChained min max d index (suc (suc left)) h = (
  meets (min + d * index) (min + d * (index + 1)) d max (d * left) (omega arith) (omega arith),
  ranges_from-IsChained min max d (index + 1) (suc left) (omega arith),
)
  where
    meets :
        (from next d max more : ℕ)
        → next ≡ from + d
        → from + d + d + more < max + d
        → next ≡ (if ltb max (from + d) then max else from + d)
    meets from next d max more e h = ground arith

-- For a positive range `d`, and a `min` below `max`, `splitRange` succeeds: each range lies within the
-- bounds, and its last block is no more than `d` after its first, so that it holds `d + 1` blocks at
-- most; the first range holds that many where there are so many blocks; every block from `min` to `max` lies in a range, and
-- each range but the first begins at the very block with which the one before it ends.
pub split_range_lem :
    (min max d : ℕ)
    → 0 < d
    → min < max
    → (rs : List BlockRange) × (split_range min max d ≡ ok rs)
      × All (IsWithin min max d) rs
      × ((b : ℕ) → min ≤ b → b ≤ max → (r : BlockRange) × In r rs × (r.from ≤ b) × (b ≤ r.to))
      × IsChained rs
      × (min + d ≤ max → In (record { from = min; to = min + d }) rs)
unfolding split_range
split_range_lem min max d h k =
    let (enough, few) = ceil_div_lem (max - min) d h in
    let n = ceil_div (max - min) d in
    let short = below_end min max d n k few in
    (
      ranges_from min max d 0 n,
      rw (guard_false min max d h k) refl,
      ranges_from-IsWithin min max d 0 n short,
      λ b lo hi.
          ranges_from_covers min max d 0 n b hi (omega arith) (reaches min max d n b hi enough)
            (some_range n (omega arith)),
      ranges_from-IsChained min max d 0 n short,
      first_full min max d n (some_range n (omega arith)),
    )
  where
    first_full :
        (min max d n : ℕ)
        → 0 < n
        → min + d ≤ max
        → In (record { from = min; to = min + d }) (ranges_from min max d 0 n)
    first_full min max d zero e h = absurd (omega arith)
    first_full min max d (suc n) e h =
        let room : ltb max (min + d * 0 + d) ≡ false = ground arith in
        let start : min + d * 0 ≡ min = omega arith in
        inl (rw room (ap (λ x. record { from = x; to = x + d }) (sym start)))

    guard_false : (min max d : ℕ) → 0 < d → min < max → ((d == 0) || leb (max + d) min) ≡ false
    guard_false min max d h k = ground arith

    below_end : (min max d n : ℕ) → min < max → d * n < max - min + d → min + d * (0 + n) < max + d
    below_end min max d n k few = omega arith

    reaches : (min max d n b : ℕ) → b ≤ max → max - min ≤ d * n → b ≤ min + d * (0 + n)
    reaches min max d n b h k = omega arith

    some_range : (n : ℕ) → 0 < d * n → 0 < n
    some_range zero e = absurd (omega arith)
    some_range (suc n) e = omega arith
