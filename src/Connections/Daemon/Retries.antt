-- ===== src/Connections/Daemon/Retries.antt =====
-- The repetition in `callRPC` of connections/daemon_rpc.go ends.
use simple_gnomon.Prelude.{
  ℕ, zero, suc, ◌+◌, ◌≤◌, ◌≡◌, refl, sym, ap, subst, ◌∙◌, Bool, true, false, none, some, leb, arith,
  Bool-cases, inl, inr,
}
use simple_gnomon.Prelude.Int.{ℤ, pos, ◌+ℤ◌, ◌-ℤ◌, eq_ℤ_iff}
use simple_gnomon.Bolt.{Res, ok, err, Res-cases}
use simple_gnomon.Connections.Daemon.{
  Client, Call, answered, invalid, fatal, handle_result, try_again, call_rpc,
}

module _ {T : Type 0} (answers : ℕ → Res T) (validator : T → Bool) where
  -- The calls from one on were answered, but none of the answers was valid.
  abbrev pub Refused : ℕ → ℕ → Type 0
  Refused start zero = Unit
  Refused start (suc n) =
      ((r : T) × (answers start ≡ ok r) × (validator r ≡ false)) × Refused (start + 1) n

  -- What the end of a call says of the answers: that of the last is given, and those before it were
  -- refused. The counter is back where it was, but after `log.Fatal`.
  abbrev pub Tells : ℕ → ℕ → ℤ → Call T → Client → Type 0
  Tells start n before (answered r) c =
      (answers (start + n) ≡ ok r)
      × (validator r ≡ true)
      × Refused start n
      × (c.calls ≡ start + n + 1)
      × (c.downloads ≡ before)
  Tells start n before (invalid tries) c =
      Refused start (suc n) × (c.calls ≡ start + n + 1) × (c.downloads ≡ before)
  Tells start n before fatal c =
      ((e : ℕ) × (answers (start + n) ≡ err e))
      × Refused start n
      × (c.calls ≡ start + n + 1)
      × (c.downloads ≡ before +ℤ pos 1)

  -- How many requests were repeated: as many as there may be before the call gives up, and at most so
  -- many in any case.
  abbrev pub Repeats : Call T → ℕ → Type 0
  Repeats (answered r) n = n ≤ 4
  Repeats (invalid tries) n = (n ≡ 4) × (tries ≡ 4)
  Repeats fatal n = n ≤ 4

  -- Where the loop ends, from a number of tries on.
  abbrev Ends : ℕ → ℕ → Client → Type 0
  Ends fuel tries c =
      (result : Call T) × (after : Client) × (n : ℕ) × (try_again answers validator fuel tries c
        ≡ some (result, after))
      × Tells c.calls n c.downloads result after
      × Repeats result (n + tries)

  down_again : (z : ℤ) → (z +ℤ pos 1) -ℤ pos 1 ≡ z
  down_again z = ground (arith, eq_ℤ_iff ((z +ℤ pos 1) -ℤ pos 1) z)

  -- The client after a call that is answered.
  abbrev called : Client → Client
  called c = record { downloads = (c.downloads +ℤ pos 1) -ℤ pos 1; calls = c.calls + 1 }

  same_answer : (start n : ℕ) → answers (start + 1 + n) ≡ answers (start + suc n)
  same_answer start n = ap answers (omega arith)

  Tells-later :
      (start n : ℕ) (before : ℤ) (call : Call T) (c : Client) (r : T)
      → answers start ≡ ok r
      → validator r ≡ false
      → Tells (start + 1) n before call c
      → Tells start (suc n) before call c
  Tells-later start n before (answered q) c r e bad (here, good, refused, calls, down) =
      (sym (same_answer start n) ∙ here, good, ((r, e, bad), refused), omega arith, down)
  Tells-later start n before (invalid tries) c r e bad (refused, calls, down) =
      (((r, e, bad), refused), omega arith, down)
  Tells-later start n before fatal c r e bad ((k, here), refused, calls, down) =
      ((k, sym (same_answer start n) ∙ here), ((r, e, bad), refused), omega arith, down)

  handled :
      (c : Client) (r : T) → answers c.calls ≡ ok r → handle_result answers c ≡ (some r, called c)
  unfolding handle_result
  handled c r e = rw (e, handle_result) refl

  failed :
      (c : Client) (k : ℕ)
      → answers c.calls ≡ err k
      → handle_result answers c
        ≡ (none, record { downloads = c.downloads +ℤ pos 1; calls = c.calls + 1 })
  unfolding handle_result
  failed c k e = rw (e, handle_result) refl

  step_fatal :
      (fuel tries k : ℕ) (c : Client)
      → answers c.calls ≡ err k
      → try_again answers validator (suc fuel) tries c
        ≡ some (fatal, record { downloads = c.downloads +ℤ pos 1; calls = c.calls + 1 })
  unfolding try_again
  step_fatal fuel tries k c e =
      rw (ap (λ x. x.0) (failed c k e), try_again, ap (λ x. x.1) (failed c k e)) refl

  step_answered :
      (fuel tries : ℕ) (c : Client) (r : T)
      → answers c.calls ≡ ok r
      → validator r ≡ true
      → try_again answers validator (suc fuel) tries c ≡ some (answered r, called c)
  unfolding try_again
  step_answered fuel tries c r e good =
      rw (ap (λ x. x.0) (handled c r e), try_again, good, ap (λ x. x.1) (handled c r e)) refl

  step_invalid :
      (fuel tries : ℕ) (c : Client) (r : T)
      → answers c.calls ≡ ok r
      → validator r ≡ false
      → leb tries 3 ≡ false
      → try_again answers validator (suc fuel) tries c ≡ some (invalid tries, called c)
  unfolding try_again
  step_invalid fuel tries c r e bad over =
      rw (ap (λ x. x.0) (handled c r e), try_again, bad, over, ap (λ x. x.1) (handled c r e)) refl

  step_again :
      (fuel tries : ℕ) (c : Client) (r : T)
      → answers c.calls ≡ ok r
      → validator r ≡ false
      → leb tries 3 ≡ true
      → try_again answers validator (suc fuel) tries c
        ≡ try_again answers validator fuel (tries + 1) (called c)
  unfolding try_again
  step_again fuel tries c r e bad more =
      rw (ap (λ x. x.0) (handled c r e), try_again, bad, more, ap (λ x. x.1) (handled c r e)) refl

  try_again-Ends : (fuel tries : ℕ) (c : Client) → 5 ≤ fuel + tries → tries ≤ 4 → Ends fuel tries c
  try_again-Ends zero tries c enough few = absurd (omega arith)
  try_again-Ends (suc fuel) tries c enough few = elim (Res-cases (answers c.calls)) [
    | inr (k, e) ↦ (
      fatal,
      record { downloads = c.downloads +ℤ pos 1; calls = c.calls + 1 },
      0,
      step_fatal fuel tries k c e,
      ((k, ap answers (omega arith) ∙ e), tt, omega arith, refl),
      omega arith,
    )
    | inl (r, e) ↦ elim (Bool-cases (validator r)) [
      | inl good ↦ (
        answered r,
        called c,
        0,
        step_answered fuel tries c r e good,
        (ap answers (omega arith) ∙ e, good, tt, omega arith, down_again c.downloads),
        omega arith,
      )
      | inr bad ↦ elim (Bool-cases (leb tries 3)) [
        | inr over ↦ (
          invalid tries,
          called c,
          0,
          step_invalid fuel tries c r e bad over,
          (((r, e, bad), tt), omega arith, down_again c.downloads),
          (ground (arith, over, few), ground (arith, over, few)),
        )
        | inl more ↦
            let (result, after, n, runs, tells, bounded) =
              try_again-Ends fuel (tries + 1) (called c) (omega arith) (ground arith) in
            (
              result,
              after,
              suc n,
              step_again fuel tries c r e bad more ∙ runs,
              Tells-later c.calls n c.downloads result after r e bad (
                  subst (λ z. Tells (c.calls + 1) n z result after) (down_again c.downloads) tells),
              subst (λ k. Repeats result k) (omega arith) bounded,
            )
      ]
    ]
  ]

  -- A call of the daemon ends after at most five requests: with the first answer that is valid, with
  -- an error after five answers none of which was valid, or in `log.Fatal` at the first request that
  -- is not answered. Only the last leaves the counter of downloads one higher.
  pub call_rpc_ends :
      (c : Client)
      → (result : Call T) × (after : Client) × (n : ℕ) × (call_rpc answers validator c
          ≡ some (result, after))
        × Tells c.calls n c.downloads result after
        × Repeats result n
  unfolding call_rpc
  call_rpc_ends c =
      let (result, after, n, runs, tells, bounded) =
        try_again-Ends 5 0 c (omega arith) (omega arith) in
      (result, after, n, runs, tells, subst (λ k. Repeats result k) (omega arith) bounded)
