-- ===== src/Globals.antt =====
-- The contracts and bounds that globals/globals.go names.
use simple_gnomon.Prelude.{ℕ}
use simple_gnomon.Prelude.Bytes.{Bytes, codes}

-- `NAMESERVICE`
abbrev pub nameservice : Bytes
nameservice = codes "0000000000000000000000000000000000000000000000000000000000000001"

-- `MAINNET_GNOMON_SCID`
abbrev pub gnomon_scid : Bytes
gnomon_scid = codes "a05395bb0cf77adc850928b0db00eb5ca7a9ccbafd9a38d021c8d299ad5ce1a4"

-- `TESTNET_GNOMON_SCID`
abbrev pub testnet_gnomon_scid : Bytes
testnet_gnomon_scid = codes "c9d23d2fc3aaa8e54e238a2218c0e5176a6e48780920fd8474fac5b0576110a2"

-- `MAX_API_VAR_RETURN`
abbrev pub max_api_var_return : ℕ
max_api_var_return = 1024
