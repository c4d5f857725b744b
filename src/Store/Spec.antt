-- ===== src/Store/Spec.antt =====
-- What the store of db/bbolt.go promises to a client that writes owners, interactions, counts and
-- heights: five maps, and a change of them for each call. The children show that it does.
pub mod Frames
pub mod Calls
pub mod Refinement
pub mod Heights
use simple_gnomon.Prelude.{◌≡◌, Option, none, some, List, [], ◌∷◌, if◌then◌else◌}
use simple_gnomon.Prelude.Int.{ℤ, IsInt64}
use simple_gnomon.Prelude.Bytes.{Bytes, ◌==◌}
use simple_gnomon.Go.Json.{Codec}
use simple_gnomon.Bolt.{Bolt}
use simple_gnomon.Store.{Store, Result}
use simple_gnomon.Store.Stats.{
  store_last_index_height, get_last_index_height, store_tx_count, get_tx_count,
}
use simple_gnomon.Store.Owner.{store_owner, get_owner}
use simple_gnomon.Store.Interaction.{
  contains_height, store_scid_interaction_height, get_scid_interaction_height,
}
use simple_gnomon.Store.Interaction.Heights.{with_height}
use simple_gnomon.Store.Daemon.{store_miniblock_count_by_address, get_miniblock_count_by_address}

pub record Model : Type 0 where
  pub owner : Bytes → Bytes
  pub heights : Bytes → List ℤ
  pub count : Bytes → ℤ
  pub last : ℤ
  pub mined : Bytes → ℤ

-- A map with one more entry.
abbrev pub set : {A : Type 0} → (Bytes → A) → Bytes → A → Bytes → A
set m key a k = if key == k then a else m k

-- The calls of a client, with their arguments.
pub data Command : Type 0 where
  owned : Bytes → Bytes → Bytes → Bytes → Bytes → Bytes → Command
  interacted : Bytes → ℤ → Command
  counted : ℤ → Bytes → Command
  indexed : ℤ → Command
  mined : ℤ → Bytes → Command

-- The numbers of a call are int64.
abbrev pub InRange : Command → Type 0
InRange (counted n tx_type) = IsInt64 n
InRange (indexed h) = IsInt64 h
InRange c = Unit

-- What a call does to the maps.
unfoldable pub apply : Command → Model → Model
apply (owned scid owner headers class tags height) m = record m { owner = set m.owner scid owner }
apply (interacted scid h) m = record m {
  heights = set m.heights scid (with_height (m.heights scid) h);
}
apply (counted n tx_type) m = record m { count = set m.count tx_type n }
apply (indexed h) m = record m { last = h }
apply (mined n addr) m = record m { mined = set m.mined addr n }

unfoldable pub apply_each : List Command → Model → Model
unfolding apply
apply_each [] m = m
apply_each (c ∷ cs) m = apply_each cs (apply c m)

module _ {Db Bucket : Type 0} (bolt : Bolt Db Bucket) (heights_json : Codec (List ℤ))
    (count_json : Codec ℤ) where
  -- The call on a store.
  unfoldable pub call : Command → Store Db → Result Db
  call (owned scid owner headers class tags height) s =
      store_owner bolt scid owner headers class tags height s
  call (interacted scid h) s = store_scid_interaction_height bolt heights_json scid h s
  call (counted n tx_type) s = store_tx_count bolt n tx_type s
  call (indexed h) s = store_last_index_height bolt h s
  call (mined n addr) s = store_miniblock_count_by_address bolt count_json n addr s

  -- The calls one after another: the store, and those that returned no error.
  unfoldable pub call_each : List Command → Store Db → Store Db × List Command
  unfolding call
  call_each [] s = (s, [])
  call_each (c ∷ cs) s =
      let r = call c s in
      let rest = call_each cs r.0 in elim r.2 [ none ↦ (rest.0, c ∷ rest.1) | some e ↦ rest ]

  -- The store answers as the maps say.
  pub record Refines (s : Store Db) (m : Model) : Type 0 where
    pub owners : (scid : Bytes) → get_owner bolt scid s ≡ m.owner scid
    pub heights :
        (scid : Bytes) → get_scid_interaction_height bolt heights_json scid s ≡ m.heights scid
    pub counts : (tx_type : Bytes) → get_tx_count bolt tx_type s ≡ m.count tx_type
    pub last : get_last_index_height bolt s ≡ (m.last, none)
    pub mined :
        (addr : Bytes) → get_miniblock_count_by_address bolt count_json addr s ≡ m.mined addr
