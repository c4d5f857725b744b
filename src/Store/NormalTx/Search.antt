-- ===== src/Store/NormalTx/Search.antt =====
-- What `GetAllNormalTxWithSCIDBySCID` of db/bbolt.go finds.
use simple_gnomon.Prelude.{
  ◌≡◌, refl, ap, sym, subst, ◌∙◌, Bool, true, false, ◌&&◌, not, List, [], ◌∷◌, ◌++◌, arith, In,
  In-append_or, In-append_left, In-append_right, Bool-cases, ◌⊎◌, inl, inr,
}
use simple_gnomon.Prelude.Bytes.{Bytes, ◌==◌, ==_iff}
use simple_gnomon.Prelude.Assoc.{Assoc}
use simple_gnomon.Go.Json.{Codec}
use simple_gnomon.Go.Strings.{slice_contains}
use simple_gnomon.Go.Strings.Contains.{slice_contains-In}
use simple_gnomon.Structs.{NormalTx}
use simple_gnomon.Bolt.{Bolt, scan}
use simple_gnomon.Store.{Store}
use simple_gnomon.Store.NormalTx.{normal_bucket, find_in, find_in_all, get_all_normal_tx_by_scid}

abbrev pub txids : List NormalTx → List Bytes
txids [] = []
txids (t ∷ ts) = t.txid ∷ txids ts

txids-append : (xs : List NormalTx) (t : NormalTx) → txids (xs ++ t ∷ []) ≡ txids xs ++ t.txid ∷ []
txids-append [] t = refl
txids-append (x ∷ xs) t = ap (λ l. x.txid ∷ l) (txids-append xs t)

-- The test of the loop.
abbrev takes : Bytes → List Bytes → NormalTx → Bool
takes scid ids t = t.scid == scid && not (slice_contains ids t.txid)

find_in-take :
    (scid : Bytes) (txs ts : List NormalTx) (ids : List Bytes) (t : NormalTx)
    → takes scid ids t ≡ true
    → find_in scid (txs, ids) (t ∷ ts) ≡ find_in scid (txs ++ t ∷ [], ids ++ t.txid ∷ []) ts
unfolding find_in
find_in-take scid txs ts ids t e = rw (e, find_in) refl

find_in-skip :
    (scid : Bytes) (txs ts : List NormalTx) (ids : List Bytes) (t : NormalTx)
    → takes scid ids t ≡ false
    → find_in scid (txs, ids) (t ∷ ts) ≡ find_in scid (txs, ids) ts
unfolding find_in
find_in-skip scid txs ts ids t e = rw (e, find_in) refl

-- What a search has found: transactions of the contract out of a list, and their ids in order.
record IsSearched (scid : Bytes) (all before : List NormalTx) (ids : List Bytes)
    (found : List NormalTx × List Bytes) : Type 0 where
  sound : (u : NormalTx) → In u found.0 → In u before ⊎ ((u.scid ≡ scid) × In u all)
  kept : (i : Bytes) → In i ids → In i found.1
  whole : (u : NormalTx) → In u all → u.scid ≡ scid → In u.txid found.1
  named : ids ≡ txids before → found.1 ≡ txids found.0

takes_scid :
    (scid : Bytes) (ids : List Bytes) (t : NormalTx) → takes scid ids t ≡ true → t.scid ≡ scid
takes_scid scid ids t e = (==_iff t.scid scid).0 (ground arith)

-- A transaction of the contract that is skipped has an id that was found before.
skipped_txid :
    (scid : Bytes) (ids : List Bytes) (t : NormalTx)
    → takes scid ids t ≡ false
    → t.scid ≡ scid
    → In t.txid ids
skipped_txid scid ids t skip e =
    let same = (==_iff t.scid scid).1 e in slice_contains-In ids t.txid (ground arith)

taken :
    (scid : Bytes) (txs ts : List NormalTx) (ids : List Bytes) (t : NormalTx)
    (found : List NormalTx × List Bytes)
    → t.scid ≡ scid
    → IsSearched scid ts (txs ++ t ∷ []) (ids ++ t.txid ∷ []) found
    → IsSearched scid (t ∷ ts) txs ids found
taken scid txs ts ids t found own rest = record {
  sound = λ u i. elim (rest.sound u i) [
    | inl j ↦ elim (In-append_or u txs (t ∷ []) j) [
      | inl k ↦ inl k
      | inr k ↦ elim k [ inl e ↦ inr (ap (λ x. x.scid) e ∙ own, inl e) | inr k' ↦ absurd k' ]
    ]
    | inr (e, j) ↦ inr (e, inr j)
  ];
  kept = λ i h. rest.kept i (In-append_left i ids (t.txid ∷ []) h);
  whole = λ u i e. elim i [
    | inl same ↦
        rest.kept u.txid (In-append_right u.txid ids (t.txid ∷ []) (inl (ap (λ x. x.txid) same)))
    | inr j ↦ rest.whole u j e
  ];
  named = λ e. rest.named (ap (λ l. l ++ t.txid ∷ []) e ∙ sym (txids-append txs t));
}

passed :
    (scid : Bytes) (txs ts : List NormalTx) (ids : List Bytes) (t : NormalTx)
    (found : List NormalTx × List Bytes)
    → takes scid ids t ≡ false
    → IsSearched scid ts txs ids found
    → IsSearched scid (t ∷ ts) txs ids found
passed scid txs ts ids t found skip rest = record {
  sound = λ u i. elim (rest.sound u i) [ inl j ↦ inl j | inr (e, j) ↦ inr (e, inr j) ];
  kept = rest.kept;
  whole = λ u i e. elim i [
    | inl same ↦ rest.kept u.txid (
        subst (λ n. In n ids) (sym (ap (λ x. x.txid) same))
          (skipped_txid scid ids t skip (sym (ap (λ x. x.scid) same) ∙ e)))
    | inr j ↦ rest.whole u j e
  ];
  named = rest.named;
}

find_in-IsSearched :
    (scid : Bytes) (txs : List NormalTx) (ids : List Bytes) (ts : List NormalTx)
    → IsSearched scid ts txs ids (find_in scid (txs, ids) ts)
unfolding find_in
find_in-IsSearched scid txs ids [] = record {
  sound = λ u i. inl i;
  kept = λ i h. h;
  whole = λ u i e. absurd i;
  named = λ e. e;
}
find_in-IsSearched scid txs ids (t ∷ ts) = elim (Bool-cases (takes scid ids t)) [
  | inl take ↦
      let rest = find_in-IsSearched scid (txs ++ t ∷ []) (ids ++ t.txid ∷ []) ts in
      subst (IsSearched scid (t ∷ ts) txs ids) (sym (find_in-take scid txs ts ids t take)) (
        taken scid txs ts ids t (find_in scid (txs ++ t ∷ [], ids ++ t.txid ∷ []) ts)
          (takes_scid scid ids t take) rest)
  | inr skip ↦
      let rest = find_in-IsSearched scid txs ids ts in
      subst (IsSearched scid (t ∷ ts) txs ids) (sym (find_in-skip scid txs ts ids t skip))
        (passed scid txs ts ids t (find_in scid (txs, ids) ts) skip rest)
]

IsSearched-append :
    (scid : Bytes) (xs ys before : List NormalTx) (ids : List Bytes)
    (middle found : List NormalTx × List Bytes)
    → IsSearched scid xs before ids middle
    → IsSearched scid ys middle.0 middle.1 found
    → IsSearched scid (xs ++ ys) before ids found
IsSearched-append scid xs ys before ids middle found first second = record {
  sound = λ u i. elim (second.sound u i) [
    | inl j ↦ elim (first.sound u j) [
      | inl k ↦ inl k
      | inr (e, k) ↦ inr (e, In-append_left u xs ys k)
    ]
    | inr (e, j) ↦ inr (e, In-append_right u xs ys j)
  ];
  kept = λ i h. second.kept i (first.kept i h);
  whole = λ u i e. elim (In-append_or u xs ys i) [
    | inl j ↦ second.kept u.txid (first.whole u j e)
    | inr j ↦ second.whole u j e
  ];
  named = λ e. second.named (first.named e);
}

module _ {Db Bucket : Type 0} (bolt : Bolt Db Bucket) (json : Codec (List NormalTx)) where
  -- The transactions of all entries.
  abbrev pub all_txs : Assoc Bytes → List NormalTx
  all_txs [] = []
  all_txs ((addr, text) ∷ entries) = json.decode text ++ all_txs entries

  find_in_all-IsSearched :
      (scid : Bytes) (txs : List NormalTx) (ids : List Bytes) (entries : Assoc Bytes)
      → IsSearched scid (all_txs entries) txs ids (find_in_all bolt json scid (txs, ids) entries)
  unfolding find_in_all
  find_in_all-IsSearched scid txs ids [] = record {
    sound = λ u i. inl i;
    kept = λ i h. h;
    whole = λ u i e. absurd i;
    named = λ e. e;
  }
  find_in_all-IsSearched scid txs ids ((addr, text) ∷ entries) =
      let middle = find_in scid (txs, ids) (json.decode text) in
      IsSearched-append scid (json.decode text) (all_txs entries) txs ids middle
        (find_in_all bolt json scid middle entries)
        (find_in-IsSearched scid txs ids (json.decode text))
        (find_in_all-IsSearched scid middle.0 middle.1 entries)

  -- Every transaction listed for a contract is one of it that is stored for some address.
  pub get_all_normal_tx_by_scid_sound :
      (scid : Bytes) (u : NormalTx) (s : Store Db)
      → In u (get_all_normal_tx_by_scid bolt json scid s)
      → (u.scid ≡ scid) × In u (all_txs (scan bolt s.db normal_bucket))
  unfolding get_all_normal_tx_by_scid
  get_all_normal_tx_by_scid_sound scid u s i =
      let searched = find_in_all-IsSearched scid [] [] (scan bolt s.db normal_bucket) in
      elim (searched.sound u i) [ inl nothing ↦ absurd nothing | inr found ↦ found ]

  -- For every stored transaction of a contract, one with its id is listed.
  pub get_all_normal_tx_by_scid_whole :
      (scid : Bytes) (u : NormalTx) (s : Store Db)
      → In u (all_txs (scan bolt s.db normal_bucket))
      → u.scid ≡ scid
      → In u.txid (txids (get_all_normal_tx_by_scid bolt json scid s))
  unfolding get_all_normal_tx_by_scid
  get_all_normal_tx_by_scid_whole scid u s i e =
      let searched = find_in_all-IsSearched scid [] [] (scan bolt s.db normal_bucket) in
      subst (In u.txid) (searched.named refl) (searched.whole u i e)
