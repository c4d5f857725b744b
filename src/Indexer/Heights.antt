-- ===== src/Indexer/Heights.antt =====
-- A round of `height_handling` in pkg/handling_heights.go: the heights that are put into the queue, and
-- where the next round begins.
pub mod Rounds
use simple_gnomon.Prelude.{
  ℕ, zero, suc, ◌≡◌, ◌↔◌, refl, false, ◌&&◌, ◌||◌, Option, none, some, List, [], ◌∷◌, arith,
  Bool-cases, Option-cases, sym, subst, if◌then◌else◌, In, inl, inr,
}
use simple_gnomon.Prelude.Int.{ℤ, pos, negsuc, ◌+ℤ◌, ◌-ℤ◌, ◌≤ℤ◌, ◌<ℤ◌, ltb_ℤ, eq_ℤ, eq_ℤ_iff, min_ℤ}

-- The global variables that the round reads and writes.
pub record Progress : Type 0 where
  pub now : ℤ
  pub lowest_height : ℤ
  pub achieved_current_height : ℤ
  pub starting_height : ℤ
  pub ending_height : ℤ

-- `if ending_height > 0 { now = min(ending_height, now) }`
unfoldable pub cap_now : Progress → Progress
cap_now p =
    if ltb_ℤ (pos 0) p.ending_height then record p { now = min_ℤ p.ending_height p.now } else p

-- `if starting_height < now && starting_height > 0 && achieved_current_height == 0`
unfoldable pub restart_at : Progress → Progress
restart_at p =
    if ltb_ℤ p.starting_height p.now
      && ltb_ℤ (pos 0) p.starting_height
      && eq_ℤ p.achieved_current_height (pos 0)
    then record p { lowest_height = p.starting_height }
    else p

-- `for height := lowest_height; height < now; height++`, with the number of rounds left.
unfoldable pub heights_from : ℤ → ℕ → List ℤ
heights_from h zero = []
heights_from h (suc n) = h ∷ heights_from (h +ℤ pos 1) n

-- The difference of two values of type int64, which wraps around.
unfoldable pub int64_difference : ℤ → ℤ → ℤ
int64_difference a b =
    let d = a -ℤ b in
    if ltb_ℤ d (negsuc 9223372036854775807)
    then d +ℤ pos 18446744073709551616
    else if ltb_ℤ (pos 9223372036854775807) d
    then d -ℤ pos 18446744073709551616
    else d

-- The number of rounds of the loop.
abbrev pub rounds_of : ℤ → ℕ
rounds_of (pos n) = n
rounds_of (negsuc n) = 0

-- The queue of a round. `none` is the panic of `make` on a channel whose size is negative or above
-- `max_size`, the largest that Go's runtime has memory for.
unfoldable pub queue_heights : ℕ → Progress → Option (List ℤ)
unfolding heights_from int64_difference
queue_heights max_size p =
    let result = int64_difference p.now p.lowest_height in
    if ltb_ℤ result (pos 0) || ltb_ℤ (pos max_size) result
    then none
    else some (heights_from p.lowest_height (rounds_of (p.now -ℤ p.lowest_height)))

-- A whole round, with the height that the daemon answers after it. The indexer keeps running.
unfoldable pub round : ℕ → ℤ → Progress → Option (List ℤ × Progress)
unfolding cap_now restart_at queue_heights
round max_size daemon_height p =
    let q = restart_at (cap_now p) in
    elim (queue_heights max_size q) [
      | none ↦ none
      | some heights ↦ some (
        heights,
        record q {
          achieved_current_height = daemon_height;
          lowest_height = min_ℤ q.now daemon_height;
        },
      )
    ]

-- The heights from one on are that many, each once.
heights_from-In : (h x : ℤ) (n : ℕ) → In x (heights_from h n) ↔ ((h ≤ℤ x) × (x <ℤ (h +ℤ pos n)))
unfolding heights_from
heights_from-In h x zero = (λ i. elim i [ ], λ b. absurd (ground (arith, b.0, b.1)))
heights_from-In h x (suc n) =
    let (to, from) = heights_from-In (h +ℤ pos 1) x n in
    (
      λ i. elim i [
        | inl e ↦
            subst (λ y. (h ≤ℤ y) × (y <ℤ (h +ℤ pos (suc n)))) (sym e) (ground arith, ground arith)
        | inr j ↦ let (a, b) = to j in (ground arith, ground arith)
      ],
      λ b. elim (Bool-cases (eq_ℤ x h)) [
        | inl same ↦ inl ((eq_ℤ_iff x h).0 same)
        | inr other ↦ inr (from (ground arith, ground arith))
      ],
    )

rounds_of_lem :
    (a b x : ℤ) → (a ≤ℤ x) × (x <ℤ (a +ℤ pos (rounds_of (b -ℤ a)))) ↔ ((a ≤ℤ x) × (x <ℤ b))
rounds_of_lem a b x = ground arith

-- A round that does not panic queues exactly the heights from the lowest one up to, but not
-- including, `now`.
pub queue_heights_lem :
    (max_size : ℕ) (p : Progress) (x : ℤ) (heights : List ℤ)
    → queue_heights max_size p ≡ some heights
    → In x heights ↔ ((p.lowest_height ≤ℤ x) × (x <ℤ p.now))
unfolding queue_heights
queue_heights_lem max_size p x heights e =
    let result = int64_difference p.now p.lowest_height in
    elim (Bool-cases (ltb_ℤ result (pos 0) || ltb_ℤ (pos max_size) result)) [
      | inl panics ↦ absurd (cc (rw panics at e))
      | inr fits ↦
          let n = rounds_of (p.now -ℤ p.lowest_height) in
          let same : heights_from p.lowest_height n ≡ heights = cc (rw fits at e) in
          let (to, from) = heights_from-In p.lowest_height x n in
          let (narrow, wide) = rounds_of_lem p.lowest_height p.now x in
          subst (λ hs. In x hs ↔ ((p.lowest_height ≤ℤ x) × (x <ℤ p.now))) same
            (λ i. narrow (to i), λ r. from (wide r))
    ]
