-- ===== src/Indexer/Fastsync/Importables.antt =====
-- What `fastsync_handling` of pkg/handling_fastsync.go imports.
use simple_gnomon.Prelude.{
  ◌≡◌, ◌↔◌, refl, sym, ap, subst, ◌∙◌, Bool, true, false, some, List, [], ◌∷◌, length, nat_beq, In,
  arith, if◌then◌else◌, inl, inr, Bool-cases, Option-cases,
}
use simple_gnomon.Prelude.Int.{ℤ, ltb_ℤ}
use simple_gnomon.Prelude.Bytes.{Bytes}
use simple_gnomon.Prelude.Assoc.{Assoc}
use simple_gnomon.Structs.{Any}
use simple_gnomon.Indexer.Fastsync.{Importable, height_at, importables_of}

module _ {Float : Type 0} (to_int : Float → ℤ) (lowest_height : ℤ) (kv : Assoc (Any Float)) where
  -- A contract that some of the variables list, with its height, which is not below the lowest one.
  abbrev pub IsListed : Assoc (Any Float) → Importable → Type 0
  IsListed m i =
      ((v : Any Float) × In (i.hash, v) m)
      × (length i.hash ≡ 64)
      × (height_at to_int i.hash kv ≡ some i.height)
      × (ltb_ℤ i.height lowest_height ≡ false)

  later-IsListed :
      (k : Bytes) (v : Any Float) (m : Assoc (Any Float)) (i : Importable)
      → IsListed m i
      → IsListed ((k, v) ∷ m) i
  later-IsListed k v m i ((w, entry), size, at, above) = ((w, inr entry), size, at, above)

  -- A key of another length lists nothing.
  other_length :
      (k : Bytes) (v : Any Float) (m : Assoc (Any Float)) (i : Importable)
      → nat_beq (length k) 64 ≡ false
      → IsListed ((k, v) ∷ m) i
      → IsListed m i
  other_length k v m i differs ((w, inl e), size, at, above) =
      absurd (ground (arith, ap (λ p. length p.0) e))
  other_length k v m i differs ((w, inr entry), size, at, above) = ((w, entry), size, at, above)

  listed_here :
      (k : Bytes) (height : ℤ) (i : Importable)
      → height_at to_int k kv ≡ some height
      → i.hash ≡ k
      → height_at to_int i.hash kv ≡ some i.height
      → i.height ≡ height
  listed_here k height i read same at =
      let both = sym at ∙ ap (λ h. height_at to_int h kv) same ∙ read in cc (both)

  made_of :
      (i : Importable) (k : Bytes) (height : ℤ)
      → i.hash ≡ k
      → i.height ≡ height
      → i ≡ record { hash = k; height = height }
  made_of i k height e f =
      ap (λ h. record { hash = h; height = i.height }) e
      ∙ ap (λ z. record { hash = k; height = z }) f

  -- What one key of 64 bytes adds to the others.
  one_more :
      (k : Bytes) (v : Any Float) (m : Assoc (Any Float)) (height : ℤ) (more : List Importable)
      (i : Importable)
      → length k ≡ 64
      → height_at to_int k kv ≡ some height
      → In i more ↔ IsListed m i
      → In i
          (if ltb_ℤ height lowest_height then more else record { hash = k; height = height } ∷ more)
        ↔ IsListed ((k, v) ∷ m) i
  one_more k v m height more i long read (to, from) =
      elim (Bool-cases (ltb_ℤ height lowest_height)) [
        | inl low ↦ rw low ((λ a. later-IsListed k v m i (to a)), below low)
        | inr high ↦ rw high (into high, out)
      ]
    where
      below : ltb_ℤ height lowest_height ≡ true → IsListed ((k, v) ∷ m) i → In i more
      below low ((w, inl e), size, at, above) =
          let same = listed_here k height i read (ap (λ p. p.0) e) at in
          absurd (cc (same, low, above))
      below low ((w, inr entry), size, at, above) = from ((w, entry), size, at, above)

      into :
          ltb_ℤ height lowest_height ≡ false
          → In i (record { hash = k; height = height } ∷ more)
          → IsListed ((k, v) ∷ m) i
      into high (inl e) =
          subst (λ j. IsListed ((k, v) ∷ m) j) (sym e) ((v, inl refl), long, read, high)
      into high (inr a) = later-IsListed k v m i (to a)

      out : IsListed ((k, v) ∷ m) i → In i (record { hash = k; height = height } ∷ more)
      out ((w, inl e), size, at, above) =
          let same = ap (λ p. p.0) e in
          inl (made_of i k height same (listed_here k height i read same at))
      out ((w, inr entry), size, at, above) = inr (from ((w, entry), size, at, above))

  some_either :
      (b : Bool) (x y : List Importable)
      → (if b then some x else some y) ≡ some (if b then x else y)
  some_either true x y = refl
  some_either false x y = refl

  same_some : (x y : List Importable) → some x ≡ some y → x ≡ y
  same_some x y e = cc (e)

  -- What the loop over the keys finds, unless it panics, is exactly what the variables list: the
  -- contracts whose ids are keys of 64 bytes, each with its height, unless it is below the lowest one.
  pub importables_of_lem :
      (m : Assoc (Any Float)) (found : List Importable)
      → importables_of to_int lowest_height kv m ≡ some found
      → (i : Importable) → In i found ↔ IsListed m i
  unfolding importables_of
  importables_of_lem [] found e i =
      subst (λ l. In i l ↔ IsListed [] i) (same_some [] found e)
        ((λ a. elim a [ ]), λ a. elim a.0.1 [ ])
  importables_of_lem ((k, v) ∷ m) found e i = elim (Bool-cases (nat_beq (length k) 64)) [
    | inr differs ↦
        let (to, from) = importables_of_lem m found (rw (differs, importables_of) at e) i in
        ((λ a. later-IsListed k v m i (to a)), λ a. from (other_length k v m i differs a))
    | inl long ↦ elim (Option-cases (height_at to_int k kv)) [
      | inl panics ↦ absurd (cc (rw (long, importables_of, panics) at e))
      | inr (height, read) ↦ elim (Option-cases (importables_of to_int lowest_height kv m)) [
        | inl panics ↦ absurd (cc (rw (long, importables_of, read, panics) at e))
        | inr (more, known) ↦
            let entry : Importable = record { hash = k; height = height } in
            subst (λ l. In i l ↔ IsListed ((k, v) ∷ m) i)
              (same_some _ found (
                sym (some_either (ltb_ℤ height lowest_height) more (entry ∷ more))
                ∙ (rw (long, importables_of, read, known) at e)))
              (one_more k v m height more i (ground arith) read (importables_of_lem m more known i))
      ]
    ]
  ]
