-- ===== src/Indexer/Heights/Rounds.antt =====
-- Rounds of `height_handling` in pkg/handling_heights.go, one after another.
use simple_gnomon.Prelude.{
  ℕ, ◌≡◌, ◌↔◌, ◌⊎◌, refl, subst, none, some, List, arith, Bool, true, false, Option-cases, ◌||◌,
  if◌then◌else◌, inl, inr,
}
use simple_gnomon.Prelude.Int.{ℤ, pos, ◌-ℤ◌, ◌≤ℤ◌, ◌<ℤ◌, ltb_ℤ, eq_ℤ_iff, min_ℤ, IsInt64}
use simple_gnomon.Indexer.Heights.{
  Progress, cap_now, restart_at, int64_difference, heights_from, rounds_of, queue_heights, round,
}

-- The heights that the round reads are heights of a chain: from 0 on, in the range of an int64, and a
-- channel can be made for as many as `now`.
abbrev pub IsFeasible : ℕ → Progress → Type 0
IsFeasible max_size p =
    (pos 0 ≤ℤ p.lowest_height)
    × IsInt64 p.lowest_height
    × (pos 0 ≤ℤ p.now)
    × IsInt64 p.now
    × (p.now ≤ℤ pos max_size)

small_difference :
    (max_size : ℕ) (p : Progress)
    → IsFeasible max_size p
    → int64_difference p.now p.lowest_height ≡ p.now -ℤ p.lowest_height
unfolding int64_difference
small_difference max_size p feasible = ground arith

out_of_range :
    (max_size : ℕ) (p : Progress)
    → IsFeasible max_size p
    → ((ltb_ℤ (p.now -ℤ p.lowest_height) (pos 0) || ltb_ℤ (pos max_size) (p.now -ℤ p.lowest_height))
        ≡ ltb_ℤ p.now p.lowest_height)
out_of_range max_size p feasible = ground arith

none_if : {A : Type 0} (b : Bool) (a : A) → ((if b then none else some a) ≡ none) ↔ (b ≡ true)
none_if true a = (λ e. refl, λ e. refl)
none_if false a = (λ e. absurd (cc (e)), λ e. absurd (cc (e)))

queue_heights-none :
    (max_size : ℕ) (p : Progress)
    → IsFeasible max_size p
    → (queue_heights max_size p ≡ none) ↔ (p.now <ℤ p.lowest_height)
unfolding queue_heights
queue_heights-none max_size p feasible =
    let (to, from) =
      none_if (ltb_ℤ p.now p.lowest_height)
        (heights_from p.lowest_height (rounds_of (p.now -ℤ p.lowest_height))) in
    rw (queue_heights, small_difference max_size p feasible, out_of_range max_size p feasible)
      (λ e. let b = to e in ground arith, λ l. from (ground arith))

-- The state of the queue in a round.
abbrev adjusted : Progress → Progress
adjusted p = restart_at (cap_now p)

adjusted-IsFeasible :
    (max_size : ℕ) (p : Progress) → IsFeasible max_size p → IsFeasible max_size (adjusted p)
unfolding restart_at cap_now
adjusted-IsFeasible max_size p feasible = ground arith

-- A height is above `now`, or above a last height that is set.
abbrev pub IsOver : Progress → ℤ → Type 0
IsOver p h = (p.now <ℤ h) ⊎ ((pos 0 <ℤ p.ending_height) × (p.ending_height <ℤ h))

-- The database is indexed again from the starting height: one is set, below `now` and below a last
-- height that is set, and nothing has been indexed since the start.
abbrev pub Restarts : Progress → Type 0
Restarts p =
    (pos 0 <ℤ p.starting_height)
    × (p.starting_height <ℤ p.now)
    × ((p.ending_height ≤ℤ pos 0) ⊎ (p.starting_height <ℤ p.ending_height))
    × (p.achieved_current_height ≡ pos 0)

adjusted-IsOver :
    (p : Progress)
    → ((adjusted p).now <ℤ (adjusted p).lowest_height)
      ↔ (IsOver p p.lowest_height × (Restarts p → ⊥))
unfolding restart_at cap_now
adjusted-IsOver p = ground (arith, eq_ℤ_iff p.achieved_current_height (pos 0))

-- The state after a round that has queued its heights.
after_round : ℤ → Progress → Progress
after_round daemon_height p = record (adjusted p) {
  achieved_current_height = daemon_height;
  lowest_height = min_ℤ (adjusted p).now daemon_height;
}

round-some :
    (max_size : ℕ) (daemon_height : ℤ) (p : Progress) (hs : List ℤ)
    → queue_heights max_size (adjusted p) ≡ some hs
    → round max_size daemon_height p ≡ some (hs, after_round daemon_height p)
unfolding round after_round
round-some max_size daemon_height p hs e = rw (e, round) refl

round-none :
    (max_size : ℕ) (daemon_height : ℤ) (p : Progress)
    → queue_heights max_size (adjusted p) ≡ none
    → round max_size daemon_height p ≡ none
unfolding round
round-none max_size daemon_height p e = rw (e, round) refl

-- On feasible heights a round panics exactly if the lowest height is above `now`, or above a last
-- height that is set, and the database is not indexed again from the starting height.
pub round_panics :
    (max_size : ℕ) (daemon_height : ℤ) (p : Progress)
    → IsFeasible max_size p
    → (round max_size daemon_height p ≡ none) ↔ (IsOver p p.lowest_height × (Restarts p → ⊥))
round_panics max_size daemon_height p feasible =
    let (over, under) = adjusted-IsOver p in
    let (to, from) =
      queue_heights-none max_size (adjusted p) (adjusted-IsFeasible max_size p feasible) in
    (
      λ e. elim (Option-cases (queue_heights max_size (adjusted p))) [
        | inl panics ↦ over (to panics)
        | inr (hs, found) ↦ absurd (cc (round-some max_size daemon_height p hs found, e))
      ],
      λ h. round-none max_size daemon_height p (from (under h)),
    )

after_round-IsFeasible :
    (max_size : ℕ) (d : ℤ) (p : Progress)
    → pos 0 ≤ℤ d
    → IsFeasible max_size p
    → IsFeasible max_size (after_round d p)
unfolding after_round restart_at cap_now
after_round-IsFeasible max_size d p answer feasible = ground arith

after_round_under :
    (d : ℤ) (p : Progress) → IsOver (after_round d p) (after_round d p).lowest_height → ⊥
unfolding after_round restart_at cap_now
after_round_under d p over = ground arith

-- On feasible heights a round that does not panic, and after which the daemon answers a height from 0
-- on, is followed by one that does not panic, as long as `now` stays as it is in between.
pub round_continues :
    (max_size : ℕ) (d d' : ℤ) (p q : Progress) (hs : List ℤ)
    → pos 0 ≤ℤ d
    → IsFeasible max_size p
    → round max_size d p ≡ some (hs, q)
    → (next : List ℤ × Progress) × (round max_size d' q ≡ some next)
round_continues max_size d d' p q hs answer feasible e =
    elim (Option-cases (queue_heights max_size (adjusted p))) [
      | inl panics ↦ absurd (cc (round-none max_size d p panics, e))
      | inr (queued, found) ↦
          let same : after_round d p ≡ q = cc (round-some max_size d p queued found, e) in
          subst (λ z. (next : List ℤ × Progress) × (round max_size d' z ≡ some next)) same
            (elim (Option-cases (round max_size d' (after_round d p))) [
              | inr next ↦ next
              | inl panics ↦
                  let (to, from) =
                    round_panics max_size d' (after_round d p)
                      (after_round-IsFeasible max_size d p answer feasible) in
                  absurd (after_round_under d p (to panics).0)
            ])
    ]
