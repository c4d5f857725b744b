-- ===== src/Indexer/Headers.antt =====
-- The headers of a contract in pkg/helpers.go: its name, description and image, from its variables or
-- from its metadata. Each map comes in the order in which Go visits it, and the last match counts.
use simple_gnomon.Prelude.{
  ◌-◌, Bool, true, false, not, ◌&&◌, ◌||◌, Option, none, some, [], ◌∷◌, ◌++◌, length, leb, drop,
  if◌then◌else◌,
}
use simple_gnomon.Prelude.Bytes.{Bytes, codes, ◌==◌}
use simple_gnomon.Prelude.Assoc.{Assoc}
use simple_gnomon.Go.Strings.{contains, has_prefix, to_lower}
use simple_gnomon.Structs.{Any, text}
use simple_gnomon.Bolt.{Res, ok, err}
use simple_gnomon.Indexer.Variables.{Crypto}

-- `strings.HasSuffix(s, p)`
unfoldable pub has_suffix : Bytes → Bytes → Bool
unfolding ◌==◌
has_suffix s p = leb (length p) (length s) && (drop (length s - length p) s == p)

-- `value.(string)`
abbrev pub as_string : {Float : Type 0} → Any Float → Option Bytes
as_string (text s) = some s
as_string _ = none

-- The metadata of a contract: the type assertions on its name and image, and `json.Marshal` of its
-- attributes.
pub record Metadata : Type 0 where
  pub name : Option Bytes
  pub attributes : Res Bytes
  pub image : Option Bytes

-- The name, the description and the image.
abbrev pub Header : Type 0
Header = Bytes × Bytes × Bytes

abbrev pub null_text : Bytes
null_text = codes "null"

unfoldable pub header_text : Header → Bytes
header_text (name, description, image) = name ++ codes ";" ++ description ++ codes ";" ++ image

unfoldable pub is_name : Bytes → Bool
unfolding contains has_prefix has_suffix to_lower
is_name k =
    let key = to_lower k in
    not (
      not (contains key (codes "name"))
      && (not (has_prefix key (codes "name")) || not (has_suffix key (codes "name"))))

unfoldable pub is_description : Bytes → Bool
unfolding contains has_prefix
is_description k = not (not (contains k (codes "descr")) && not (has_prefix k (codes "descr")))

unfoldable pub is_image : Bytes → Bool
unfolding contains has_prefix
is_image k = not (not (contains k (codes "icon")) && not (has_prefix k (codes "icon")))

abbrev or_null : Bytes → Bytes
or_null [] = null_text
or_null (c ∷ s) = c ∷ s

module _ {Float : Type 0} (crypto : Crypto Float) where
  -- The text of a value that is hex, or the one before it.
  unfoldable pub text_of : Option Bytes → Bytes → Bytes
  text_of none old = old
  text_of (some str) old = let (b, fine) = crypto.decode_hex str in if fine then b else old

  -- The loop that the three functions share.
  unfoldable pub last_text : (Bytes → Bool) → Bytes → Assoc (Any Float) → Bytes
  unfolding text_of
  last_text keep old [] = old
  last_text keep old ((k, v) ∷ m) =
      last_text keep (if keep k then text_of (as_string v) old else old) m

  unfoldable pub name_from_vars : Assoc (Any Float) → Bytes
  unfolding last_text is_name
  name_from_vars keys = or_null (last_text is_name [] keys)

  unfoldable pub description_from_vars : Assoc (Any Float) → Bytes
  unfolding last_text is_description
  description_from_vars keys = or_null (last_text is_description [] keys)

  -- `url.Parse` and `u.String()`, of net/url.
  module _ (parse_url : Bytes → Option Bytes) where
    abbrev pub url_or_null : Bytes → Bytes
    url_or_null s = elim (parse_url s) [ none ↦ null_text | some u ↦ u ]

    unfoldable pub image_from_vars : Assoc (Any Float) → Bytes
    unfolding last_text is_image
    image_from_vars keys = elim (last_text is_image [] keys) [
      | [] ↦ null_text
      | c ∷ s ↦ url_or_null (c ∷ s)
    ]

    unfoldable pub vars_header : Assoc (Any Float) → Bytes
    unfolding name_from_vars description_from_vars image_from_vars header_text
    vars_header keys =
        header_text (name_from_vars keys, description_from_vars keys, image_from_vars keys)

    -- What metadata that is read sets. A missing image is the empty text by the time it is parsed.
    unfoldable pub metadata_header : Metadata → Header
    metadata_header metadata = (
      elim metadata.name [ none ↦ null_text | some v ↦ v ],
      elim metadata.attributes [ err c ↦ null_text | ok b ↦ b ],
      url_or_null (elim metadata.image [ none ↦ [] | some v ↦ v ]),
    )

    unfoldable pub is_metadata : Bytes → Bool
    unfolding contains to_lower ◌==◌
    is_metadata key =
        not (not (contains (to_lower key) (codes "metadata")) || key == codes "metadataFormat")

    -- `json.Unmarshal` into a map; `none` is its error.
    module _ (unmarshal : Bytes → Option Metadata) where
      unfoldable pub read_metadata : Option Bytes → Header → Header
      unfolding metadata_header
      read_metadata none old = old
      read_metadata (some v) old =
          let (b, fine) = crypto.decode_hex v in
          elim fine [
            | false ↦ old
            | true ↦ elim (unmarshal b) [ none ↦ old | some metadata ↦ metadata_header metadata ]
          ]

      unfoldable pub last_metadata : Header → Assoc (Any Float) → Header
      unfolding read_metadata is_metadata
      last_metadata old [] = old
      last_metadata old ((key, value) ∷ kv) =
          last_metadata (if is_metadata key then read_metadata (as_string value) old else old) kv

      unfoldable pub header_from_metadata : Assoc (Any Float) → Bytes
      unfolding last_metadata header_text
      header_from_metadata kv = header_text (last_metadata (null_text, null_text, null_text) kv)
