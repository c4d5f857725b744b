-- ===== src/Store/Interaction.antt =====
-- Interaction heights of a contract in db/bbolt.go: `StoreSCIDInteractionHeight`,
-- `GetSCIDInteractionHeight` and `GetInteractionIndex`.
pub mod Heights
pub mod Index
pub mod Oldest
use simple_gnomon.Prelude.{
  ◌≡◌, refl, ◌≢◌, Bool, true, false, ◌||◌, Option, none, some, List, [], ◌∷◌, ◌++◌, foldl,
  if◌then◌else◌,
}
use simple_gnomon.Prelude.Int.{ℤ, pos, ltb_ℤ, leb_ℤ, eq_ℤ}
use simple_gnomon.Prelude.Bytes.{Bytes, codes}
use simple_gnomon.Go.Json.{Codec}
use simple_gnomon.Go.Sort.{sort_stable}
use simple_gnomon.Bolt.{Bolt, Res, ok, err, read}
use simple_gnomon.Bolt.Update.{Outcome, update, put_entry, in_bucket, marshal}
use simple_gnomon.Store.{Store, Result, with_db}

abbrev pub heights_bucket : Bytes → Bytes
heights_bucket scid = scid ++ codes "heights"

-- `slices.Contains(heights, h)`
unfoldable pub contains_height : List ℤ → ℤ → Bool
contains_height [] h = false
contains_height (x ∷ hs) h = eq_ℤ x h || contains_height hs h

-- `if h <= topoheight { height = h }`, in the loop over the sorted heights
abbrev pub keep_height : ℤ → ℤ → ℤ → ℤ
keep_height topoheight height h = if leb_ℤ h topoheight then h else height

unfoldable pub highest_first : List ℤ → List ℤ
highest_first heights = sort_stable (λ a b. ltb_ℤ b a) heights

-- `GetInteractionIndex` on the heights as sorted; the slice that it sorts in place is its caller's
-- own and is not read again.
unfoldable pub index_in : ℤ → List ℤ → ℤ
index_in topoheight [] = pos 0
index_in topoheight (top ∷ rest) =
    if ltb_ℤ top topoheight || ltb_ℤ topoheight (pos 0)
    then top
    else foldl (keep_height topoheight) (pos 0) (top ∷ rest)

unfoldable pub get_interaction_index : ℤ → List ℤ → ℤ
unfolding index_in highest_first
get_interaction_index topoheight heights = index_in topoheight (highest_first heights)

module _ {Db Bucket : Type 0} (bolt : Bolt Db Bucket) (json : Codec (List ℤ)) where
  -- `json.Marshal` and `Put`
  unfoldable pub put_heights : Bytes → List ℤ → Db → Outcome Db
  put_heights scid heights d = elim (json.marshal heights) [
    | ok text ↦ put_entry bolt (heights_bucket scid) scid text d
    | err c ↦ (d, false, some (marshal c))
  ]

  -- The transaction's function after the bucket is there, on the value that was read before.
  unfoldable pub add_height : Bytes → ℤ → Option Bytes → Db → Outcome Db
  unfolding put_heights contains_height
  add_height scid height none d = put_heights scid (height ∷ []) d
  add_height scid height (some text) d =
      let heights = json.decode text in
      if contains_height heights height
      then (d, false, none)
      else put_heights scid (heights ++ height ∷ []) d

  unfoldable pub interaction_body : Bytes → ℤ → Option Bytes → Db → Outcome Db
  unfolding add_height
  interaction_body scid height current d =
      in_bucket bolt (heights_bucket scid) (add_height scid height current) d

  unfoldable pub store_scid_interaction_height : Bytes → ℤ → Store Db → Result Db
  unfolding interaction_body with_db
  store_scid_interaction_height scid height s =
      let current = read bolt s.db (heights_bucket scid) scid in
      with_db s (update bolt (interaction_body scid height current) s.db)

  -- The heights that a stored value holds, none if it is absent.
  unfoldable pub decoded_heights : Option Bytes → List ℤ
  decoded_heights none = []
  decoded_heights (some text) = json.decode text

  unfoldable pub get_scid_interaction_height : Bytes → Store Db → List ℤ
  unfolding decoded_heights
  get_scid_interaction_height scid s = decoded_heights (read bolt s.db (heights_bucket scid) scid)
