-- ===== src/Tests/Samples.antt =====
-- An empty store on the engine in memory, and a codec for heights.
use simple_gnomon.Prelude.{◌≡◌, refl, ap, subst, zero, suc, false, none, List, [], ◌∷◌}
use simple_gnomon.Prelude.Int.{ℤ, pos, negsuc}
use simple_gnomon.Prelude.Bytes.{Bytes, codes, ◌==◌, bytes_ltb}
use simple_gnomon.Prelude.Assoc.{lookup, insert, insert_key}
use simple_gnomon.Go.Strconv.{format_int, parse_int}
use simple_gnomon.Bolt.Update.{update, put_in, in_bucket}
use simple_gnomon.Go.Json.{Codec, Exact}
use simple_gnomon.Bolt.{Bolt, Laws, ok, read, scan}
use simple_gnomon.Bolt.Memory.{Db, Bucket, memory, memory_laws, create, put, entries}
use simple_gnomon.Store.{Store, write_entry}

-- No commit fails.
abbrev pub bolt : Bolt Db Bucket
bolt = memory (λ d. none)

pub bolt_laws : Laws bolt
bolt_laws = memory_laws (λ d. none)

abbrev pub blank : Store Db
blank = record {
  db = [];
  db_path = codes "gnomondb";
  writing = false;
  exclusions = [];
  last_index_height = pos 0;
  closing = false;
  buckets = [];
}

abbrev pub write_heights : List ℤ → Bytes
write_heights [] = []
write_heights (pos n ∷ hs) = 0 ∷ n ∷ write_heights hs
write_heights (negsuc n ∷ hs) = 1 ∷ n ∷ write_heights hs

abbrev pub read_heights : Bytes → List ℤ
read_heights (zero ∷ n ∷ text) = pos n ∷ read_heights text
read_heights (suc k ∷ n ∷ text) = negsuc n ∷ read_heights text
read_heights _ = []

pub read_heights-write_heights : (hs : List ℤ) → read_heights (write_heights hs) ≡ hs
read_heights-write_heights [] = refl
read_heights-write_heights (pos n ∷ hs) = ap (λ t. pos n ∷ t) (read_heights-write_heights hs)
read_heights-write_heights (negsuc n ∷ hs) = ap (λ t. negsuc n ∷ t) (read_heights-write_heights hs)

abbrev pub heights_json : Codec (List ℤ)
heights_json = record { marshal = λ hs. ok (write_heights hs); decode = read_heights }

pub heights_json-Exact : Exact heights_json
heights_json-Exact hs text e = coded hs text (unwrap e)
  where
    unwrap : {a b : Bytes} → ok a ≡ ok b → a ≡ b
    unwrap h = cc

    coded : (hs : List ℤ) (text : Bytes) → write_heights hs ≡ text → read_heights text ≡ hs
    coded hs text h = subst (λ t. read_heights t ≡ hs) h (read_heights-write_heights hs)

-- A test that unfolds this runs the engine, the transactions and the texts.
unfoldable pub runs : Unit {0}
unfolding write_entry update put_in in_bucket create put lookup insert entries insert_key ◌==◌
    bytes_ltb format_int parse_int read scan
runs = tt
