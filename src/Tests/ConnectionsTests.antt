-- ===== src/Tests/ConnectionsTests.antt =====
-- The servers and the daemon's client, at concrete inputs.
use simple_gnomon.Prelude.{
  ℕ, ◌≡◌, refl, Bool, not, none, some, [], nat_beq, ltb, if◌then◌else◌, false, true,
}
use simple_gnomon.Prelude.Int.{pos}
use simple_gnomon.Prelude.Bytes.{Bytes, codes, ◌==◌}
use simple_gnomon.Go.Json.{Codec}
use simple_gnomon.Bolt.{Res, ok, err}
use simple_gnomon.Bolt.Memory.{Db, Bucket}
use simple_gnomon.Structs
use simple_gnomon.Connections.Api.Server.{ApiServer, Query}
use simple_gnomon.Connections.Api.Contracts.{asked_height}
use simple_gnomon.Connections.Daemon.{Client, Call, call_rpc}
use simple_gnomon.Connections.Daemon.Retries.{Tells, Repeats, call_rpc_ends}
use simple_gnomon.Connections.Values.{Value}
use simple_gnomon.Connections.Setup.{Setup}
use simple_gnomon.Connections.Ws.{handle_client}
use simple_gnomon.Connections.Ws.Cases.{Decoders}
use simple_gnomon.Connections.Ws.Owners.{owner_response, stored_owner_answered}
use simple_gnomon.Store.{Store}
use simple_gnomon.Store.Owner.{put_each, store_owner}
use simple_gnomon.Tests.Samples.{bolt, bolt_laws, blank, runs, heights_json}
use simple_gnomon.Tests.Codecs.{minis_json, count_json}

-- A daemon whose second answer is the first that is valid.
abbrev answers : ℕ → Res ℕ
answers n = if ltb n 1 then ok 0 else ok 7

abbrev is_valid : ℕ → Bool
is_valid n = not (nat_beq n 0)

abbrev fresh : Client
fresh = record { downloads = pos 0; calls = 0 }

call_rpc_ends_example :
    (result : Call ℕ) × (after : Client) × (n : ℕ) × (call_rpc answers is_valid fresh
      ≡ some (result, after))
    × Tells answers is_valid 0 n (pos 0) result after
    × Repeats answers is_valid result n
call_rpc_ends_example = call_rpc_ends answers is_valid fresh

-- A codec that writes nothing down.
abbrev silent : {A : Type 0} → A → Codec A
silent a = record { marshal = λ x. ok []; decode = λ s. a }

abbrev env : Setup Db Bucket ℕ ℕ ℕ ℕ
env = record {
  bolt = bolt;
  vars_json = silent [];
  invoke_json = silent none;
  heights_json = heights_json;
  txs_json = silent [];
  minis_json = minis_json;
  count_json = count_json;
  fees_json = silent [];
  info_json = silent none;
  to_uint = λ n. n;
  visit_vars = λ m. m;
  visit_owners = λ m. m;
  arrange = λ l. l;
}

abbrev asked : Query
asked key = if key == codes "scid" then codes "aa" else codes "nine"

abbrev decoders : Decoders ℕ
decoders = record {
  vars_params = λ s. ok (
      some (record {
        scid = codes "aa";
        value = Structs.text (codes "nine");
        height = asked_height env (codes "nine");
        max = false;
      }));
  address = λ s. err 1;
  scid = λ s. ok (some (record { scid = s }));
  class = λ s. err 1;
  tag = λ s. err 1;
  entrypoint = λ s. err 1;
  topoheight = λ s. err 1;
  interaction = λ s. err 1;
  signer = λ s. err 1;
  tx_count = λ s. err 1;
  miniblock = λ s. err 1;
}

abbrev stored_owner : Store Db
stored_owner =
    (store_owner bolt (codes "aa") (codes "ann") [] (codes "tela") (codes "all") (codes "7")
      blank).0

owner_stored :
    (store_owner bolt
      (codes "aa")
      (codes "ann")
      []
      (codes "tela")
      (codes "all")
      (codes "7")
      blank).2
    ≡ none
unfolding store_owner put_each runs
owner_stored = refl

stored_owner_answered_example :
    handle_client env decoders
      (record { id = some (codes "1"); method = codes "GetOwner"; params = some (codes "aa") })
      (ok (pos 9))
      stored_owner
    ≡ some (some (owner_response env decoders (some (codes "1")) (codes "ann")))
unfolding ◌==◌
stored_owner_answered_example =
    stored_owner_answered env decoders bolt_laws (codes "aa") (codes "ann") [] (codes "tela")
      (codes "all") (codes "7") (codes "aa") (some (codes "1")) (record { scid = codes "aa" })
      (ok (pos 9)) blank owner_stored refl

abbrev server : ApiServer (Value ℕ ℕ ℕ ℕ) Db
server = record {
  config = record {
    enabled = true;
    listen = codes "127.0.0.1:8082";
    stats_collect_interval = codes "5s";
    hashrate_window = [];
    payments = pos 0;
    blocks = pos 0;
    ssl = false;
    ssl_listen = [];
    get_info_ssl_listen = [];
    cert_file = [];
    get_info_cert_file = [];
    key_file = [];
    get_info_key_file = [];
    mbl_lookup = false;
    api_throttle = false;
  };
  stats = some none;
  stats_intv = pos 0;
  database = blank;
}
