-- ===== src/Tests/Codecs.antt =====
-- Codecs for miniblocks and counts that read back what they write.
use simple_gnomon.Prelude.{◌≡◌, refl, ap, ◌∙◌, subst, ℕ, zero, suc, List, [], ◌∷◌}
use simple_gnomon.Prelude.Int.{ℤ, pos}
use simple_gnomon.Prelude.Bytes.{Bytes}
use simple_gnomon.Go.Json.{Codec, Exact}
use simple_gnomon.Structs.{MblInfo}
use simple_gnomon.Bolt.{ok}
use simple_gnomon.Tests.Samples.{write_heights, read_heights, read_heights-write_heights}

-- Each number is written one larger, and 0 ends a text.
abbrev write_text : Bytes → Bytes → Bytes
write_text [] more = 0 ∷ more
write_text (c ∷ s) more = suc c ∷ write_text s more

abbrev in_front : ℕ → List Bytes → List Bytes
in_front c [] = []
in_front c (s ∷ texts) = (c ∷ s) ∷ texts

abbrev read_texts : Bytes → List Bytes
read_texts [] = []
read_texts (zero ∷ more) = [] ∷ read_texts more
read_texts (suc c ∷ more) = in_front c (read_texts more)

read_texts-write_text : (s more : Bytes) → read_texts (write_text s more) ≡ s ∷ read_texts more
read_texts-write_text [] more = refl
read_texts-write_text (c ∷ s) more = ap (in_front c) (read_texts-write_text s more)

abbrev write_minis : List MblInfo → Bytes
write_minis [] = []
write_minis (m ∷ minis) = write_text m.hash (write_text m.miner (write_minis minis))

abbrev pairs : List Bytes → List MblInfo
pairs (h ∷ m ∷ texts) = record { hash = h; miner = m } ∷ pairs texts
pairs _ = []

abbrev read_minis : Bytes → List MblInfo
read_minis text = pairs (read_texts text)

read_minis-write_minis : (minis : List MblInfo) → read_minis (write_minis minis) ≡ minis
read_minis-write_minis [] = refl
read_minis-write_minis (m ∷ minis) =
    let rest = write_minis minis in
    ap pairs (
      read_texts-write_text m.hash (write_text m.miner rest)
      ∙ ap (λ t. m.hash ∷ t) (read_texts-write_text m.miner rest))
    ∙ ap (λ l. m ∷ l) (read_minis-write_minis minis)

unwrap : {a b : Bytes} → ok a ≡ ok b → a ≡ b
unwrap h = cc (h)

abbrev pub minis_json : Codec (List MblInfo)
minis_json = record { marshal = λ minis. ok (write_minis minis); decode = read_minis }

pub minis_json-Exact : Exact minis_json
minis_json-Exact minis text e =
    subst (λ t. read_minis t ≡ minis) (unwrap e) (read_minis-write_minis minis)

abbrev first : List ℤ → ℤ
first [] = pos 0
first (n ∷ more) = n

abbrev pub count_json : Codec ℤ
count_json = record {
  marshal = λ n. ok (write_heights (n ∷ []));
  decode = λ text. first (read_heights text);
}

pub count_json-Exact : Exact count_json
count_json-Exact n text e =
    subst (λ t. first (read_heights t) ≡ n) (unwrap e)
      (ap first (read_heights-write_heights (n ∷ [])))
