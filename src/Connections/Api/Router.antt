-- ===== src/Connections/Api/Router.antt =====
-- The routes of connections/api.go, and the handler that each of them leads to.
use simple_gnomon.Prelude.{[], ◌∷◌, ◌++◌, if◌then◌else◌}
use simple_gnomon.Prelude.Bytes.{codes}
use simple_gnomon.Prelude.Assoc.{Assoc}
use simple_gnomon.Connections.Setup.{Setup}
use simple_gnomon.Connections.Values.{Value}
use simple_gnomon.Connections.Api.Server.{ApiConfig, ApiServer, Query, Encoded}
use simple_gnomon.Connections.Api.Contracts.{
  invoke_index_by_scid, scid_keys_by_value, invoke_sc_vars_by_height, normal_tx_with_scid,
}
use simple_gnomon.Connections.Api.Chain.{
  get_stats, stats_index, get_scids, get_scids_and_headers, get_scids_by_class, invalid_scid_stats,
  mbl_lookup_by_hash, mbl_lookup_by_addr, get_info,
}

-- The methods that `newRouter` names.
pub data Endpoint : Type 0 where
  stats scids by_class and_headers getinfo indexed index_by_scid vars_by_height invalid priv_tx
        keys_by_value mbl_by_hash mbl_by_addr :
      Endpoint

unfoldable pub new_router : ApiConfig → Assoc Endpoint
new_router config =
    ((codes "/api/getstats", stats)
      ∷ (codes "/api/getscids", scids)
      ∷ (codes "/api/getscidsbyclass", by_class)
      ∷ (codes "/api/getscidsandheaders", and_headers)
      ∷ (codes "/api/getinfo", getinfo)
      ∷ (codes "/api/indexedscs", indexed)
      ∷ (codes "/api/indexbyscid", index_by_scid)
      ∷ (codes "/api/scvarsbyheight", vars_by_height)
      ∷ (codes "/api/invalidscids", invalid)
      ∷ (codes "/api/scidprivtx", priv_tx)
      ∷ (codes "/api/getscidkeysbyvalue", keys_by_value)
      ∷ [])
    ++ (if config.mbl_lookup
        then (codes "/api/getmbladdrsbyhash", mbl_by_hash)
          ∷ (codes "/api/getmblcountbyaddr", mbl_by_addr)
          ∷ []
        else [])

module _ {Db Bucket Args Payload Float Info : Type 0}
    (env : Setup Db Bucket Args Payload Float Info) where
  abbrev V : Type 0
  V = Value Args Payload Float Info

  unfoldable pub handle : Endpoint → ApiServer V Db → Query → Encoded V
  unfolding get_stats stats_index
  handle stats server q = get_stats env server
  handle scids server q = get_scids env server
  handle by_class server q = get_scids_by_class env server q
  handle and_headers server q = get_scids_and_headers env server
  handle getinfo server q = get_info env server
  handle indexed server q = stats_index env server
  handle index_by_scid server q = invoke_index_by_scid env server q
  handle vars_by_height server q = invoke_sc_vars_by_height env server q
  handle invalid server q = invalid_scid_stats env server
  handle priv_tx server q = normal_tx_with_scid env server q
  handle keys_by_value server q = scid_keys_by_value env server q
  handle mbl_by_hash server q = mbl_lookup_by_hash env server q
  handle mbl_by_addr server q = mbl_lookup_by_addr env server q
