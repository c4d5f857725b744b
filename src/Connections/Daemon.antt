-- ===== src/Connections/Daemon.antt =====
-- The daemon's client in connections/daemon_rpc.go: a call, its validation and its repetition.
pub mod Retries
use simple_gnomon.Prelude.{
  ℕ, zero, suc, ◌+◌, ◌≡◌, Bool, true, false, ◌&&◌, not, Option, none, some, List, [], ◌∷◌, leb, ltb,
  nat_beq, length, if◌then◌else◌,
}
use simple_gnomon.Prelude.Int.{ℤ, pos, ◌+ℤ◌, ◌-ℤ◌, eq_ℤ}
use simple_gnomon.Prelude.Bytes.{Bytes, ◌==◌}
use simple_gnomon.Bolt.{Res, ok, err}

-- The counter `DOWNLOADS`, and how many calls have been sent.
pub record Client : Type 0 where
  pub downloads : ℤ
  pub calls : ℕ

-- How `callRPC` ends: with a result, with the error of the validation, or in `log.Fatal`.
pub data Call (T : Type 0) : Type 0 where
  answered : T → Call T
  invalid : ℕ → Call T
  fatal : Call T

-- `answers` is what the daemon, which is another program, returns to each call in turn.
module _ {T : Type 0} (answers : ℕ → Res T) where
  -- `none` is `log.Fatal`, which runs no deferred call.
  unfoldable pub handle_result : Client → Option T × Client
  handle_result c =
      let sent : Client = record { downloads = c.downloads +ℤ pos 1; calls = c.calls + 1 } in
      elim (answers c.calls) [
        | err e ↦ (none, sent)
        | ok result ↦ (some result, record sent { downloads = sent.downloads -ℤ pos 1 })
      ]

  -- The jump back to `try_again`, on fuel; `none` is a jump too many.
  unfoldable pub try_again : (T → Bool) → ℕ → ℕ → Client → Option (Call T × Client)
  unfolding handle_result
  try_again validator zero tries c = none
  try_again validator (suc fuel) tries c =
      let r = handle_result c in
      elim r.0 [
        | none ↦ some (fatal, r.1)
        | some result ↦ elim (validator result) [
          | true ↦ some (answered result, r.1)
          | false ↦ elim (leb tries 3) [
            | true ↦ try_again validator fuel (tries + 1) r.1
            | false ↦ some (invalid tries, r.1)
          ]
        ]
      ]

  unfoldable pub call_rpc : (T → Bool) → Client → Option (Call T × Client)
  unfolding try_again
  call_rpc validator c = try_again validator 5 0 c

-- The validators of the calls, on the fields of derohe's results that they read.
unfoldable pub valid_height : ℤ → Bool
valid_height topo_height = not (eq_ℤ topo_height (pos 0))

unfoldable pub valid_status : Bytes → Bool
unfolding ◌==◌
valid_status status = not (status == [])

unfoldable pub valid_depth : ℤ → Bool
valid_depth depth = not (eq_ℤ depth (pos 0))

-- `code` and `variables` are what `GetSC` was asked for.
unfoldable pub valid_sc : Bool → Bool → Bytes → ℕ → Bool
unfolding ◌==◌
valid_sc code variables text count =
    if code && variables
    then not (text == []) && not (nat_beq count 0)
    else if code && not variables
    then not (text == [])
    else if not code && variables
    then not (nat_beq count 0)
    else true

module _ {Info : Type 0} (topo_height : Info → ℤ) (answers : ℕ → Res Info) where
  -- `Get_TopoHeight`: the zero of the type without a result.
  unfoldable pub height_of : Call Info → Option ℤ
  height_of (answered info) = some (topo_height info)
  height_of (invalid tries) = some (pos 0)
  height_of fatal = none

  unfoldable pub get_topo_height : Client → Option (Option ℤ × Client)
  unfolding call_rpc valid_height height_of
  get_topo_height c = elim (call_rpc answers (λ info. valid_height (topo_height info)) c) [
    | none ↦ none
    | some (call, c') ↦ some (height_of call, c')
  ]
