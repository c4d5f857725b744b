-- ===== src/Connections/Api/Server.antt =====
-- The server of connections/api.go, its statistics and what its replies share.
use simple_gnomon.Prelude.{Bool, true, false, Option, none, some, List, [], ◌∷◌, length}
use simple_gnomon.Prelude.Int.{ℤ, pos}
use simple_gnomon.Prelude.Bytes.{Bytes, codes}
use simple_gnomon.Prelude.Assoc.{Assoc, lookup, insert}
use simple_gnomon.Store.{Store}
use simple_gnomon.Store.Stats.{get_last_index_height, get_tx_count}
use simple_gnomon.Store.Owner.{get_all_owners_and_scids}
use simple_gnomon.Connections.Setup.{Setup}
use simple_gnomon.Connections.Values.{Value, null, number, text, text_map}

pub record ApiConfig : Type 0 where
  pub enabled : Bool
  pub listen : Bytes
  pub stats_collect_interval : Bytes
  pub hashrate_window : Bytes
  pub payments : ℤ
  pub blocks : ℤ
  pub ssl : Bool
  pub ssl_listen : Bytes
  pub get_info_ssl_listen : Bytes
  pub cert_file : Bytes
  pub get_info_cert_file : Bytes
  pub key_file : Bytes
  pub get_info_key_file : Bytes
  pub mbl_lookup : Bool
  pub api_throttle : Bool

-- What `json.NewEncoder(writer).Encode` is given.
abbrev pub Reply : Type 0 → Type 0
Reply V = Assoc V

-- `stats` is absent until the first `Store`; what is stored may be the nil map. The duration of
-- `stats_intv` is in nanoseconds.
pub record ApiServer (V Db : Type 0) : Type 0 where
  pub config : ApiConfig
  pub stats : Option (Option (Reply V))
  pub stats_intv : ℤ
  pub database : Store Db

unfoldable pub new_api_server : {V Db : Type 0} → ApiConfig → Store Db → ApiServer V Db
new_api_server cfg database = record {
  config = cfg;
  stats = none;
  stats_intv = pos 0;
  database = database;
}

-- `r.URL.Query().Get`: empty for a key that is not there.
abbrev pub Query : Type 0
Query = Bytes → Bytes

-- A handler: the replies that it encodes, one behind another; `none` is a panic.
abbrev pub Encoded : Type 0 → Type 0
Encoded V = Option (List (Reply V))

abbrev pub once : {V : Type 0} → Reply V → Encoded V
once reply = some (reply ∷ [])

-- A value read from the store, where reading it may have panicked.
abbrev pub with_read : {A V : Type 0} → Option A → (A → Encoded V) → Encoded V
with_read none rest = none
with_read (some a) rest = rest a

module _ {Args Payload Float Info : Type 0} where
  -- `m[key]`, nil if it is missing.
  unfoldable pub value_at :
      Bytes → Reply (Value Args Payload Float Info) → Value Args Payload Float Info
  value_at key m = elim (lookup key m) [ none ↦ null | some v ↦ v ]

  module _ {Db Bucket : Type 0} (env : Setup Db Bucket Args Payload Float Info) where
    unfoldable pub collect_stats :
        ApiServer (Value Args Payload Float Info) Db → ApiServer (Value Args Payload Float Info) Db
    unfolding insert
    collect_stats server =
        let s = server.database in
        let sclist = get_all_owners_and_scids env.bolt s in
        elim s.closing [
          | true ↦ server
          | false ↦ record server {
            stats = some (
                some (
                  insert (codes "indexedscs") (text_map sclist) (
                    insert (codes "indexHeight") (number (get_last_index_height env.bolt s).0) (
                      insert (codes "countNormTX")
                        (number (get_tx_count env.bolt (codes "normal") s))
                        (insert (codes "countBurnTX")
                          (number (get_tx_count env.bolt (codes "burn") s))
                          (insert (codes "countRegTX")
                            (number (get_tx_count env.bolt (codes "registration") s))
                            (insert (codes "countSCs") (number (pos (length sclist))) [])))))));
          }
        ]

  -- `setStats`; `Load` before the first `Store` is nil, and the assertion on its type panics.
  unfoldable pub set_stats :
      {Db : Type 0}
      → ApiServer (Value Args Payload Float Info) Db
      → Reply (Value Args Payload Float Info)
      → Option (Reply (Value Args Payload Float Info))
  unfolding insert value_at
  set_stats server reply = elim server.stats [
    | none ↦ none
    | some none ↦ some (insert (codes "hello") (text (codes "world")) reply)
    | some (some stats) ↦ some (
        insert (codes "countNormTX") (value_at (codes "countNormTX") stats) (
          insert (codes "countBurnTX") (value_at (codes "countBurnTX") stats) (
            insert (codes "countRegTX") (value_at (codes "countRegTX") stats) (
              insert (codes "countSCs") (value_at (codes "countSCs") stats)
                (insert (codes "indexHeight") (value_at (codes "indexHeight") stats) reply)))))
  ]

  -- A handler that starts with `reply := make(map[string]any)` and `setStats(reply)`.
  unfoldable pub with_stats :
      {Db : Type 0}
      → ApiServer (Value Args Payload Float Info) Db
      → (Reply (Value Args Payload Float Info) → Encoded (Value Args Payload Float Info))
      → Encoded (Value Args Payload Float Info)
  unfolding set_stats
  with_stats server rest = elim (set_stats server []) [ none ↦ none | some reply ↦ rest reply ]

  -- The statistics' map of the contracts, read by `StatsIndex` after `setStats`.
  unfoldable pub indexed_scs :
      {Db : Type 0} → ApiServer (Value Args Payload Float Info) Db → Value Args Payload Float Info
  unfolding value_at
  indexed_scs server = elim server.stats [
    | some (some stats) ↦ value_at (codes "indexedscs") stats
    | _ ↦ null
  ]
