-- ===== src/Store/Spec/Refinement.antt =====
-- The store of db/bbolt.go refines five maps.
use simple_gnomon.Prelude.{
  ◌≡◌, refl, sym, subst, ◌≢◌, none, some, List, [], ◌∷◌, All, inl, inr, Option-cases,
}
use simple_gnomon.Prelude.Int.{ℤ}
use simple_gnomon.Go.Json.{Codec, Exact}
use simple_gnomon.Go.Strconv.{format_int}
use simple_gnomon.Bolt.{Bolt, Laws}
use simple_gnomon.Bolt.Update.{Error}
use simple_gnomon.Store.{Store, write_entry-Writes}
use simple_gnomon.Store.Stats.{stats, count_key, store_tx_count, store_last_index_height_failed}
use simple_gnomon.Store.Owner.Records.{store_owner_failed}
use simple_gnomon.Store.Interaction.Heights.{store_interaction_failed}
use simple_gnomon.Store.Daemon.{count_bucket, store_miniblock_count_by_address}
use simple_gnomon.Store.Daemon.Miniblocks.{write_json_failed}
use simple_gnomon.Store.Spec.{
  Model, Command, owned, interacted, counted, indexed, mined, InRange, apply, apply_each, call,
  call_each, Refines,
}
use simple_gnomon.Store.Spec.Calls.{
  Kept, owned-Kept, interacted-Kept, counted-Kept, indexed-Kept, mined-Kept,
}

module _ {Db Bucket : Type 0} (bolt : Bolt Db Bucket) (heights_json : Codec (List ℤ))
    (count_json : Codec ℤ) (laws : Laws bolt) (exact_heights : Exact heights_json)
    (exact_count : Exact count_json) where
  call-Kept :
      (c : Command) (s : Store Db) (m : Model)
      → Kept bolt heights_json count_json laws exact_heights exact_count c s m
  call-Kept (owned scid owner headers class tags height) s m =
      owned-Kept bolt heights_json count_json laws exact_heights exact_count scid owner headers
        class tags height s m
  call-Kept (interacted scid h) s m =
      interacted-Kept bolt heights_json count_json laws exact_heights exact_count scid h s m
  call-Kept (counted n tx_type) s m =
      counted-Kept bolt heights_json count_json laws exact_heights exact_count n tx_type s m
  call-Kept (indexed h) s m =
      indexed-Kept bolt heights_json count_json laws exact_heights exact_count h s m
  call-Kept (mined n addr) s m =
      mined-Kept bolt heights_json count_json laws exact_heights exact_count n addr s m

  -- A call that fails changes nothing.
  call_failed :
      (c : Command) (s : Store Db)
      → (call bolt heights_json count_json c s).2 ≢ none
      → (call bolt heights_json count_json c s).0 ≡ s
  unfolding call store_tx_count store_miniblock_count_by_address
  call_failed (owned scid owner headers class tags height) s bad =
      store_owner_failed bolt laws scid owner headers class tags height s bad
  call_failed (interacted scid h) s bad =
      store_interaction_failed bolt heights_json laws exact_heights scid h s bad
  call_failed (counted n tx_type) s bad =
      (write_entry-Writes bolt laws stats (count_key tx_type) (format_int n) s).failed bad
  call_failed (indexed h) s bad = store_last_index_height_failed bolt laws h s bad
  call_failed (mined n addr) s bad =
      write_json_failed bolt laws count_json count_bucket addr n s bad

  kept_call :
      (c : Command) (cs : List Command) (s : Store Db)
      → (call bolt heights_json count_json c s).2 ≡ none
      → let rest =
          call_each bolt heights_json count_json cs (call bolt heights_json count_json c s).0 in
        call_each bolt heights_json count_json (c ∷ cs) s ≡ (rest.0, c ∷ rest.1)
  unfolding call_each
  kept_call c cs s fine = rw (fine, call_each) refl

  dropped_call :
      (c : Command) (cs : List Command) (s : Store Db) (e : Error)
      → (call bolt heights_json count_json c s).2 ≡ some e
      → call_each bolt heights_json count_json (c ∷ cs) s
        ≡ call_each bolt heights_json count_json cs (call bolt heights_json count_json c s).0
  unfolding call_each
  dropped_call c cs s e bad = rw (bad, call_each) refl

  -- The store refines the five maps: after any calls of a client it answers as the maps do after
  -- those of the calls that returned no error, in their order.
  pub call_each-Refines :
      (cs : List Command) (s : Store Db) (m : Model)
      → All InRange cs
      → Refines bolt heights_json count_json s m
      → let (s', kept) = call_each bolt heights_json count_json cs s in
        Refines bolt heights_json count_json s' (apply_each kept m)
  unfolding call_each apply_each
  call_each-Refines [] s m range r = r
  call_each-Refines (c ∷ cs) s m (here, later) r =
      let after = (call bolt heights_json count_json c s).0 in
      elim (Option-cases (call bolt heights_json count_json c s).2) [
        | inl fine ↦
            subst (λ o. Refines bolt heights_json count_json o.0 (apply_each o.1 m))
              (sym (kept_call c cs s fine))
              (call_each-Refines cs after (apply c m) later (call-Kept c s m here fine r))
        | inr (e, bad) ↦
            subst (λ o. Refines bolt heights_json count_json o.0 (apply_each o.1 m))
              (sym (dropped_call c cs s e bad))
              (call_each-Refines cs after m later (
                subst (λ z. Refines bolt heights_json count_json z m)
                  (sym (call_failed c s (λ h. cc (h, bad)))) r))
      ]
