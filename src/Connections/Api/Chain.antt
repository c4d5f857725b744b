-- ===== src/Connections/Api/Chain.antt =====
-- The handlers of connections/api.go that read one record of the store, or one listing.
use simple_gnomon.Prelude.{ℕ, Bool, ◌&&◌, [], length, ltb, if◌then◌else◌}
use simple_gnomon.Prelude.Bytes.{codes, ◌==◌}
use simple_gnomon.Prelude.Assoc.{insert}
use simple_gnomon.Globals.{max_api_var_return}
use simple_gnomon.Store.Owner.{get_all_scids, get_all_scids_and_headers, get_all_scids_by_class}
use simple_gnomon.Store.Daemon.{
  get_get_info_details, get_invalid_scid_deploys, get_all_miniblock_details,
  get_miniblock_details_by_hash, get_miniblock_count_by_address,
}
use simple_gnomon.Connections.Setup.{Setup}
use simple_gnomon.Connections.Values.{
  Value, null, number, texts, text_map, fee_map, minis, mini_map, info, in_order,
}
use simple_gnomon.Connections.Api.Server.{ApiServer, Query, Encoded, once, with_stats, indexed_scs}

module _ {Db Bucket Args Payload Float Info : Type 0}
    (env : Setup Db Bucket Args Payload Float Info) where
  abbrev V : Type 0
  V = Value Args Payload Float Info

  -- `len(…) > globals.MAX_API_VAR_RETURN && apiServer.Config.ApiThrottle`
  abbrev pub denied : ApiServer V Db → ℕ → Bool
  denied server count = ltb max_api_var_return count && server.config.api_throttle

  unfoldable pub get_stats : ApiServer V Db → Encoded V
  unfolding with_stats
  get_stats server = with_stats server (λ reply. once reply)

  unfoldable pub stats_index : ApiServer V Db → Encoded V
  unfolding with_stats indexed_scs insert
  stats_index server =
      with_stats server (λ reply. once (insert (codes "indexedscs") (indexed_scs server) reply))

  unfoldable pub get_scids : ApiServer V Db → Encoded V
  unfolding with_stats insert
  get_scids server = with_stats server (λ reply.
      once
        (insert (codes "scids") (texts (get_all_scids env.bolt env.arrange server.database)) reply))

  unfoldable pub get_scids_and_headers : ApiServer V Db → Encoded V
  unfolding with_stats insert
  get_scids_and_headers server = with_stats server (λ reply. once (
      insert (codes "indexedscs") (text_map (get_all_scids_and_headers env.bolt server.database))
        reply))

  unfoldable pub get_scids_by_class : ApiServer V Db → Query → Encoded V
  unfolding with_stats insert in_order
  get_scids_by_class server q =
      let scids = get_all_scids_by_class env.bolt (q (codes "class")) server.database in
      let list = in_order scids (get_all_scids env.bolt env.arrange server.database) in
      with_stats server (λ reply. once (insert (codes "scids") (texts list) reply))

  unfoldable pub invalid_scid_stats : ApiServer V Db → Encoded V
  unfolding insert
  invalid_scid_stats server =
      let invalidscids = get_invalid_scid_deploys env.bolt env.fees_json server.database in
      once (
        insert (codes "invalidscids")
          (if denied server (length invalidscids) then null else fee_map invalidscids) [])

  unfoldable pub mbl_lookup_by_hash : ApiServer V Db → Query → Encoded V
  unfolding with_stats insert ◌==◌
  mbl_lookup_by_hash server q =
      let blid = q (codes "blid") in
      let found = get_miniblock_details_by_hash env.bolt env.minis_json blid server.database in
      with_stats server (λ reply. once (
        insert (codes "mbl")
          (if blid == [] then null else if denied server (length found) then null else minis found)
          reply))

  unfoldable pub mbl_lookup_by_addr : ApiServer V Db → Query → Encoded V
  unfolding with_stats insert ◌==◌
  mbl_lookup_by_addr server q =
      let addr = q (codes "address") in
      let count = get_miniblock_count_by_address env.bolt env.count_json addr server.database in
      with_stats server
        (λ reply. once (insert (codes "mbl") (if addr == [] then null else number count) reply))

  -- No route leads here.
  unfoldable pub mbl_lookup_all : ApiServer V Db → Encoded V
  unfolding with_stats insert
  mbl_lookup_all server =
      let found = get_all_miniblock_details env.bolt env.minis_json server.database in
      with_stats server (λ reply. once (
        insert (codes "mbl") (if denied server (length found) then null else mini_map found) reply))

  unfoldable pub get_info : ApiServer V Db → Encoded V
  unfolding insert
  get_info server = once (
      insert (codes "getinfo") (info (get_get_info_details env.bolt env.info_json server.database))
        [])
