-- ===== src/Prelude/Keys.antt =====
-- The order of byte keys, and lists of entries in strictly ascending order of their keys.
use simple_gnomon.Prelude.Tests.{Bool-cases}
use simple_gnomon.Prelude.Bytes.{Bytes, ◌==◌, ==_iff, bytes_ltb}
use simple_gnomon.Prelude.Assoc.{Assoc, lookup, insert, insert_key, lookup-insert}
use mathlib.Core.Path.{◌≡◌, refl, subst}
use mathlib.Core.Logic.{inl, inr}
use mathlib.Core.Bool.{true, false}
use mathlib.Core.Option.{none, some}
use mathlib.Core.List.{[], ◌∷◌}
use native.Mathlib.Omega.{arith}

pub bytes_ltb_irrefl : (s : Bytes) → bytes_ltb s s ≡ false
unfolding bytes_ltb
bytes_ltb_irrefl [] = refl
bytes_ltb_irrefl (a ∷ s) = ground (arith, bytes_ltb_irrefl s)

pub bytes_ltb_trans :
    (s t u : Bytes) → bytes_ltb s t ≡ true → bytes_ltb t u ≡ true → bytes_ltb s u ≡ true
unfolding bytes_ltb
bytes_ltb_trans s t [] h k = absurd (cc)
bytes_ltb_trans s [] (c ∷ u) h k = absurd (cc)
bytes_ltb_trans [] (b ∷ t) (c ∷ u) h k = refl
bytes_ltb_trans (a ∷ s) (b ∷ t) (c ∷ u) h k = ground (arith, bytes_ltb_trans s t u)

pub bytes_ltb_total :
    (s t : Bytes) → (s == t) ≡ false → bytes_ltb s t ≡ false → bytes_ltb t s ≡ true
unfolding bytes_ltb ◌==◌
bytes_ltb_total [] [] h k = absurd (cc)
bytes_ltb_total (a ∷ s) [] h k = refl
bytes_ltb_total [] (b ∷ t) h k = absurd (cc)
bytes_ltb_total (a ∷ s) (b ∷ t) h k = ground (arith, bytes_ltb_total s t)

swap_eq : (k j : Bytes) → (j == k) ≡ false → (k == j) ≡ false
swap_eq k j h = ground (arith, ==_iff k j, ==_iff j k)

module _ {ℓ} {V : Type ℓ} where
  -- Every key of the list is above the given one.
  abbrev pub Above : Bytes → Assoc V → Type 0
  Above k [] = Unit
  Above k ((j, v) ∷ m) = (bytes_ltb k j ≡ true) × Above k m

  abbrev pub Ascending : Assoc V → Type 0
  Ascending [] = Unit
  Ascending ((k, v) ∷ m) = Above k m × Ascending m

  Above-trans : (i k : Bytes) (m : Assoc V) → bytes_ltb i k ≡ true → Above k m → Above i m
  Above-trans i k [] h a = tt
  Above-trans i k ((j, v) ∷ m) h a = (bytes_ltb_trans i k j h a.0, Above-trans i k m h a.1)

  insert_key-Above :
      (i k : Bytes) (v : V) (m : Assoc V)
      → bytes_ltb i k ≡ true
      → Above i m
      → Above i (insert_key k v m)
  unfolding insert_key
  insert_key-Above i k v [] h a = (h, tt)
  insert_key-Above i k v ((j, w) ∷ m) h a = ground (arith, insert_key-Above i k v m h a.1)

  pub insert_key-Ascending :
      (k : Bytes) (v : V) (m : Assoc V) → Ascending m → Ascending (insert_key k v m)
  unfolding insert_key
  insert_key-Ascending k v [] h = (tt, tt)
  insert_key-Ascending k v ((j, w) ∷ m) h = elim (Bool-cases (j == k)) [
    | inl same ↦ rw same (subst (λ t. Above t m) ((==_iff j k).0 same) h.0, h.1)
    | inr other ↦ elim (Bool-cases (bytes_ltb k j)) [
      | inl before ↦ rw (other, before) ((before, Above-trans k j m before h.0), h)
      | inr after ↦
          rw (other, after)
            (
              insert_key-Above j k v m (bytes_ltb_total k j (swap_eq k j other) after) h.0,
              insert_key-Ascending k v m h.1,
            )
    ]
  ]

  lookup-Above : (k : Bytes) (m : Assoc V) → Above k m → lookup k m ≡ none
  unfolding lookup
  lookup-Above k [] a = refl
  lookup-Above k ((j, w) ∷ m) a =
      ground (arith, ==_iff j k, bytes_ltb_irrefl k, lookup-Above k m a.1)

  -- `for k, v := …; results[k] = v`
  unfoldable pub collect : Assoc V → Assoc V → Assoc V
  collect results [] = results
  collect results ((k, v) ∷ m) = collect (insert k v results) m

  -- Collecting entries with ascending keys into a map gives each key its value.
  pub lookup-collect :
      (results m : Assoc V) (k : Bytes)
      → Ascending m
      → lookup k (collect results m)
        ≡ elim (lookup k m) [ none ↦ lookup k results | some v ↦ some v ]
  unfolding collect lookup
  lookup-collect results [] k h = refl
  lookup-collect results ((j, v) ∷ m) k h =
      rw (lookup-collect (insert j v results) m k h.1)
        (ground (arith, lookup-insert j k v results, lookup-Above j m h.0, ==_iff j k))
