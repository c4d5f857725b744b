-- ===== src/Indexer/Transactions/Counts.antt =====
-- What `handle_tx` of pkg/handling_txs.go counts.
use simple_gnomon.Prelude.{
  ℕ, suc, ◌+◌, ◌≤◌, ◌≡◌, refl, sym, ap, subst, ◌∙◌, Option, none, some, List, [], ◌∷◌, arith,
  get_elem?, length, Option-cases, inl, inr,
}
use simple_gnomon.Prelude.Int.{ℤ, pos}
use simple_gnomon.Prelude.Bytes.{Bytes}
use simple_gnomon.Go.Json.{Codec}
use simple_gnomon.Structs.{NormalTx}
use simple_gnomon.Bolt.{Bolt}
use simple_gnomon.Indexer.Counting.{increment}
use simple_gnomon.Indexer.Transactions.{
  TxType, premine, coinbase, registration, burn_tx, normal, sc_tx, unknown, Derohe, Holding,
  tx_payload_callback, handle_payloads, stage, by_type, decode, handle_from, handle_tx,
}

unwrap : {A : Type 0} {a b : A} → some a ≡ some b → a ≡ b
unwrap e = cc (e)

-- How many transactions of a type.
pub record Kinds : Type 0 where
  pub registrations : ℕ
  pub burns : ℕ
  pub normals : ℕ

abbrev pub add_kind : TxType → Kinds → Kinds
add_kind registration k = record k { registrations = k.registrations + 1 }
add_kind burn_tx k = record k { burns = k.burns + 1 }
add_kind normal k = record k { normals = k.normals + 1 }
add_kind _ k = k

-- The counters hold these numbers, with room for some more.
abbrev pub Counts : {Db Tx Info : Type 0} → Kinds → ℕ → Holding Db Tx Info → Type 0
Counts k room h =
    (h.registrations ≡ pos k.registrations)
    × (h.burns ≡ pos k.burns)
    × (h.normals ≡ pos k.normals)
    × (k.registrations + room ≤ 9223372036854775807)
    × (k.burns + room ≤ 9223372036854775807)
    × (k.normals + room ≤ 9223372036854775807)

increment_lem :
    (z : ℤ) (n room : ℕ)
    → z ≡ pos n
    → n + (room + 1) ≤ 9223372036854775807
    → increment z ≡ pos (n + 1)
increment_lem z n room e fits = ground arith

Counts-less :
    {Db Tx Info : Type 0} (k : Kinds) (room : ℕ) (h : Holding Db Tx Info)
    → Counts k (room + 1) h
    → Counts k room h
Counts-less k room h (r, b, n, fr, fb, fn) = (r, b, n, omega arith, omega arith, omega arith)

Counts-room :
    {Db Tx Info : Type 0} (k : Kinds) (room : ℕ) (h : Holding Db Tx Info)
    → Counts k (suc room) h
    → Counts k (room + 1) h
Counts-room k room h (r, b, n, fr, fb, fn) = (r, b, n, omega arith, omega arith, omega arith)

same_counts :
    {Db Tx Info : Type 0} (h h' : Holding Db Tx Info)
    → h ≡ h'
    → (h'.registrations ≡ h.registrations) × (h'.burns ≡ h.burns) × (h'.normals ≡ h.normals)
same_counts h h' e =
    (ap (λ x. x.registrations) (sym e), ap (λ x. x.burns) (sym e), ap (λ x. x.normals) (sym e))

module _ {Db Bucket Tx Payload Info : Type 0} (bolt : Bolt Db Bucket) (json : Codec (List NormalTx))
    (derohe : Derohe Tx Payload Info) where
  -- The types of the transactions that decode, added up.
  abbrev pub kinds_of : Kinds → List Bytes → Kinds
  kinds_of k [] = k
  kinds_of k (each ∷ hexes) = elim (decode bolt json derohe each) [
    | none ↦ kinds_of k hexes
    | some tx ↦ kinds_of (add_kind (derohe.transaction_type tx) k) hexes
  ]

  handle_payloads_counts :
      (info : Option Info) (tx : Tx) (payloads : List Payload) (h h' : Holding Db Tx Info)
      → handle_payloads bolt json derohe info tx payloads h ≡ some h'
      → (h'.registrations ≡ h.registrations) × (h'.burns ≡ h.burns) × (h'.normals ≡ h.normals)
  unfolding handle_payloads
  handle_payloads_counts info tx [] h h' e = same_counts h h' (unwrap e)
  handle_payloads_counts none tx (payload ∷ payloads) h h' e = absurd (cc (e))
  handle_payloads_counts (some info) tx (payload ∷ payloads) h h' e =
      elim (Option-cases (
        tx_payload_callback bolt json derohe 0 (derohe.block_height info) info tx
          (payload ∷ payloads) h.store)) [
            | inl panics ↦ absurd (cc (rw (panics, handle_payloads) at e))
            | inr (s, done) ↦
                let same : some (record h { store = s }) ≡ some h' =
                  rw (done, handle_payloads) at e in
                same_counts (record h { store = s }) h' (unwrap same)
          ]

  by_type-Counts :
      (t : TxType) (info : Option Info) (tx : Tx) (h h' : Holding Db Tx Info) (k : Kinds) (room : ℕ)
      → Counts k (room + 1) h
      → by_type bolt json derohe t info tx h ≡ some h'
      → Counts (add_kind t k) room h'
  unfolding by_type stage
  by_type-Counts premine info tx h h' k room c e =
      subst (Counts k room) (unwrap e) (Counts-less k room h c)
  by_type-Counts coinbase info tx h h' k room c e =
      subst (Counts k room) (unwrap e) (Counts-less k room h c)
  by_type-Counts unknown info tx h h' k room c e =
      subst (Counts k room) (unwrap e) (Counts-less k room h c)
  by_type-Counts registration info tx h h' k room (r, b, n, fr, fb, fn) e =
      subst (Counts (add_kind registration k) room) (unwrap e) (
        increment_lem h.registrations k.registrations room r fr,
        b,
        n,
        omega arith,
        omega arith,
        omega arith,
      )
  by_type-Counts burn_tx info tx h h' k room (r, b, n, fr, fb, fn) e =
      subst (Counts (add_kind burn_tx k) room) (unwrap e)
        (r, increment_lem h.burns k.burns room b fb, n, omega arith, omega arith, omega arith)
  by_type-Counts normal info tx h h' k room (r, b, n, fr, fb, fn) e =
      let counted = record h { normals = increment h.normals } in
      let (sr, sb, sn) = handle_payloads_counts info tx (derohe.payloads tx) counted h' e in
      (
        sr ∙ r,
        sb ∙ b,
        sn ∙ increment_lem h.normals k.normals room n fn,
        omega arith,
        omega arith,
        omega arith,
      )
  by_type-Counts sc_tx none tx h h' k room c e = absurd (cc (e))
  by_type-Counts sc_tx (some info) tx h h' k room c e =
      subst (Counts k room) (unwrap e) (Counts-less k room h c)

  kinds_of-skip :
      (k : Kinds) (each : Bytes) (hexes : List Bytes)
      → decode bolt json derohe each ≡ none
      → kinds_of k (each ∷ hexes) ≡ kinds_of k hexes
  kinds_of-skip k each hexes e = rw (e, kinds_of) refl

  kinds_of-next :
      (k : Kinds) (each : Bytes) (hexes : List Bytes) (tx : Tx)
      → decode bolt json derohe each ≡ some tx
      → kinds_of k (each ∷ hexes) ≡ kinds_of (add_kind (derohe.transaction_type tx) k) hexes
  kinds_of-next k each hexes tx e = rw (e, kinds_of) refl

  handle_from-skip :
      (i : ℕ) (txs : List Info) (each : Bytes) (hexes : List Bytes) (h : Holding Db Tx Info)
      → decode bolt json derohe each ≡ none
      → handle_from bolt json derohe i txs (each ∷ hexes) h
        ≡ handle_from bolt json derohe (i + 1) txs hexes h
  unfolding handle_from
  handle_from-skip i txs each hexes h e = rw (e, handle_from) refl

  handle_from-next :
      (i : ℕ) (txs : List Info) (each : Bytes) (hexes : List Bytes) (h : Holding Db Tx Info)
      (tx : Tx)
      → decode bolt json derohe each ≡ some tx
      → handle_from bolt json derohe i txs (each ∷ hexes) h
        ≡ (elim (by_type bolt json derohe (derohe.transaction_type tx) (get_elem? txs i) tx h) [
          | none ↦ none
          | some next ↦ handle_from bolt json derohe (i + 1) txs hexes next
        ])
  unfolding handle_from
  handle_from-next i txs each hexes h tx e = rw (e, handle_from) refl

  handle_from-Counts :
      (i : ℕ) (txs : List Info) (hexes : List Bytes) (h h' : Holding Db Tx Info) (k : Kinds)
      → Counts k (length hexes) h
      → handle_from bolt json derohe i txs hexes h ≡ some h'
      → Counts (kinds_of k hexes) 0 h'
  unfolding handle_from
  handle_from-Counts i txs [] h h' k c e = subst (Counts k 0) (unwrap (handle_none i txs h ∙ e)) c
    where
      handle_none :
          (i : ℕ) (txs : List Info) (h : Holding Db Tx Info)
          → some h ≡ handle_from bolt json derohe i txs [] h
      handle_none i txs h = refl
  handle_from-Counts i txs (each ∷ hexes) h h' k c e =
      let room = Counts-room k (length hexes) h c in
      elim (Option-cases (decode bolt json derohe each)) [
        | inl bad ↦
            subst (λ n. Counts n 0 h') (sym (kinds_of-skip k each hexes bad))
              (handle_from-Counts (i + 1) txs hexes h h' k (Counts-less k (length hexes) h room)
                (sym (handle_from-skip i txs each hexes h bad) ∙ e))
        | inr (tx, good) ↦
            let t = derohe.transaction_type tx in
            let run = sym (handle_from-next i txs each hexes h tx good) ∙ e in
            elim (Option-cases (by_type bolt json derohe t (get_elem? txs i) tx h)) [
              | inl panics ↦ absurd (cc (rw panics at run))
              | inr (next, done) ↦
                  subst (λ n. Counts n 0 h') (sym (kinds_of-next k each hexes tx good))
                    (handle_from-Counts (i + 1) txs hexes next h' (add_kind t k)
                      (by_type-Counts t (get_elem? txs i) tx h next k (length hexes) room done)
                      (rw done at run))
            ]
      ]

  -- Handling transactions that does not panic: the counters of registrations, burns and normal
  -- transactions grow by the numbers of those among the transactions that decode, if the counters
  -- have room for all of them.
  pub handle_tx-Counts :
      (hexes : List Bytes) (txs : List Info) (h h' : Holding Db Tx Info) (k : Kinds)
      → Counts k (length hexes) h
      → handle_tx bolt json derohe hexes txs h ≡ some h'
      → Counts (kinds_of k hexes) 0 h'
  unfolding handle_tx
  handle_tx-Counts hexes txs h h' k c e = handle_from-Counts 0 txs hexes h h' k c e
