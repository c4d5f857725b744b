-- ===== src/Start/Launch.antt =====
-- What `Start_gnomon_indexer` of pkg/gnomon.go computes from the flags, the store and the daemon's
-- answers.
use simple_gnomon.Prelude.{
  ℕ, zero, suc, ◌/◌, Bool, true, false, ◌&&◌, not, Option, none, some, List, [], ◌++◌,
  if◌then◌else◌,
}
use simple_gnomon.Prelude.Int.{ℤ, pos, negsuc, ◌-ℤ◌, ltb_ℤ, eq_ℤ, min_ℤ, max_ℤ}
use simple_gnomon.Prelude.Bytes.{Bytes, codes, ◌==◌}
use simple_gnomon.Globals.{nameservice}
use simple_gnomon.Go.Strings.{has_prefix}
use simple_gnomon.Structs.{ScidVariable, IndexStage}
use simple_gnomon.Bolt.{Bolt}
use simple_gnomon.Store.{Store}
use simple_gnomon.Store.Stats.{get_last_index_height}
use simple_gnomon.Connections.Api.Server.{ApiConfig}
use simple_gnomon.Start.Flags.{Flags}

-- The address of the daemon's JSON-RPC.
unfoldable pub rpc_url : Bytes → Bytes
unfolding has_prefix
rpc_url endpoint =
    (if not (has_prefix endpoint (codes "http://")) && not (has_prefix endpoint (codes "https://"))
      then codes "http://" ++ endpoint
      else endpoint)
    ++ codes "/json_rpc"

-- `(60 * 60 * 24) / int64(info.Target)`: a target of zero panics.
unfoldable pub blocks_of_day : ℕ → Option ℤ
blocks_of_day zero = none
blocks_of_day (suc n) = some (pos (86400 / suc n))

-- `GetLastIndexHeight`, 0 on an error, as a bound from above for `lowest_height`.
unfoldable pub start_height : {Db Bucket : Type 0} → Bolt Db Bucket → ℤ → Store Db → ℤ
unfolding get_last_index_height
start_height bolt topo_height database =
    let (height, e) = get_last_index_height bolt database in
    min_ℤ topo_height (elim e [ none ↦ height | some c ↦ pos 0 ])

abbrev or_default : Bytes → Bytes → Bytes
or_default given default = if given == [] then default else given

unfoldable pub ws_address : Flags → Bytes
unfolding ◌==◌
ws_address flags = or_default flags.ws_endpoint (codes "127.0.0.1:9190")

-- The configuration of the HTTP interface; the fields that the literal leaves out are zero.
unfoldable pub api_config : Flags → ApiConfig
unfolding ◌==◌
api_config flags = record {
  enabled = true;
  listen = or_default flags.api_endpoint (codes "127.0.0.1:8082");
  stats_collect_interval = codes "5s";
  hashrate_window = [];
  payments = pos 0;
  blocks = pos 0;
  ssl = false;
  ssl_listen = [];
  get_info_ssl_listen = [];
  cert_file = [];
  get_info_cert_file = [];
  key_file = [];
  get_info_key_file = [];
  mbl_lookup = flags.store_minis;
  api_throttle = false;
}

-- The stage under which the name service is stored; `dev_address` is derohe's.
unfoldable pub nameservice_stage :
    {Args Payload Float : Type 0}
    → Args
    → Bytes
    → List (ScidVariable Float)
    → Bytes
    → IndexStage Args Payload Float
nameservice_stage no_args dev_address sc_vars code = record {
  parse = record {
    txid = [];
    scid = nameservice;
    entrypoint = [];
    method = [];
    sc_args = no_args;
    sender = dev_address;
    payloads = [];
    fees = 0;
    height = negsuc 0;
  };
  headers = [];
  sc_vars = sc_vars;
  sc_code = code;
  class = codes "NAMESERVICE";
  tags = codes "all";
}

-- `fastsync && now-lowest_height > (day_of_blocks/4)`; the days' blocks are not negative.
unfoldable pub is_fastsync_due : Flags → ℤ → ℤ → ℕ → Bool
is_fastsync_due flags now lowest_height day_of_blocks =
    flags.fastsync && ltb_ℤ (pos (day_of_blocks / 4)) (now -ℤ lowest_height)

-- The number of blocks in parallel: the default for 0, and at least one.
unfoldable pub blocks_in_parallel : Flags → ℤ
blocks_in_parallel flags =
    let chosen =
      if eq_ℤ flags.parallel_blocks (pos 0)
      then flags.default_num_blocks
      else flags.parallel_blocks in
    max_ℤ chosen (pos 1)

-- The number of heights that is logged.
unfoldable pub heights_to_load : Flags → ℤ → ℤ → ℤ
heights_to_load flags now lowest_height =
    if ltb_ℤ flags.starting_height now && ltb_ℤ (pos 0) flags.starting_height
    then now -ℤ flags.starting_height
    else now -ℤ lowest_height
