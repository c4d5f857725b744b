-- ===== src/Connections/Ws/Methods.antt =====
-- The methods of the web socket's requests in connections/ws_server.go.
use simple_gnomon.Prelude.{Option, none, some, if◌then◌else◌, ◌||◌}
use simple_gnomon.Prelude.Bytes.{Bytes, codes, ◌==◌}

-- The cases of the switch on `req.Method`.
pub data Method : Type 0 where
  all_owners_and_scids all_scids all_owners all_classes all_tags all_headers all_scids_and_headers
        all_scids_by_class all_scids_by_tag last_index_height tx_count owner all_normal_tx_by_addr
        all_normal_tx_by_scid all_invoke_details invoke_details_by_entrypoint
        invoke_details_by_signer get_info_details variable_details_at_topoheight
        all_variable_details keys_by_value values_by_key live_keys_by_value live_values_by_key
        interaction_by_addr interaction_height interaction_index invalid_deploys
        all_miniblock_details miniblock_details_by_hash miniblock_count_by_address test :
      Method

-- The labels of the first half of the cases, and of the second.
unfoldable pub first_methods : Bytes → Option Method
unfolding ◌==◌
first_methods m =
    if m == codes "GetAllOwnersAndSCIDs"
    then some all_owners_and_scids
    else if m == codes "GetAllSCIDs" || m == codes "get_indexed_scids"
    then some all_scids
    else if m == codes "GetAllOwners"
    then some all_owners
    else if m == codes "GetAllClasses"
    then some all_classes
    else if m == codes "GetAllTags"
    then some all_tags
    else if m == codes "GetAllHeaders"
    then some all_headers
    else if m == codes "GetAllSCIDsAndHeaders"
    then some all_scids_and_headers
    else if m == codes "GetAllSCIDsByClass"
    then some all_scids_by_class
    else if m == codes "GetAllSCIDsByTag"
    then some all_scids_by_tag
    else if m == codes "GetLastIndexHeight"
    then some last_index_height
    else if m == codes "GetTxCount"
    then some tx_count
    else if m == codes "GetOwner"
    then some owner
    else if m == codes "GetAllNormalTxWithSCIDByAddr"
    then some all_normal_tx_by_addr
    else if m == codes "GetAllNormalTxWithSCIDBySCID"
    then some all_normal_tx_by_scid
    else if m == codes "GetAllSCIDInvokeDetails"
    then some all_invoke_details
    else if m == codes "GetAllSCIDInvokeDetailsByEntrypoint"
    then some invoke_details_by_entrypoint
    else if m == codes "GetAllSCIDInvokeDetailsBySigner"
    then some invoke_details_by_signer
    else none

unfoldable pub later_methods : Bytes → Option Method
unfolding ◌==◌
later_methods m =
    if m == codes "GetGetInfoDetails"
    then some get_info_details
    else if m == codes "GetSCIDVariableDetailsAtTopoheight"
    then some variable_details_at_topoheight
    else if m == codes "GetAllSCIDVariableDetails"
    then some all_variable_details
    else if m == codes "GetSCIDKeysByValue"
    then some keys_by_value
    else if m == codes "GetSCIDValuesByKey"
    then some values_by_key
    else if m == codes "GetLiveSCIDKeysByValue"
    then some live_keys_by_value
    else if m == codes "GetLiveSCIDValuesByKey"
    then some live_values_by_key
    else if m == codes "GetSCIDInteractionByAddr"
    then some interaction_by_addr
    else if m == codes "GetSCIDInteractionHeight"
    then some interaction_height
    else if m == codes "GetInteractionIndex"
    then some interaction_index
    else if m == codes "GetInvalidSCIDDeploys"
    then some invalid_deploys
    else if m == codes "GetAllMiniblockDetails"
    then some all_miniblock_details
    else if m == codes "GetMiniblockDetailsByHash"
    then some miniblock_details_by_hash
    else if m == codes "GetMiniblockCountByAddress"
    then some miniblock_count_by_address
    else if m == codes "test"
    then some test
    else none

unfoldable pub method_of : Bytes → Option Method
unfolding first_methods later_methods
method_of m = elim (first_methods m) [ some method ↦ some method | none ↦ later_methods m ]
