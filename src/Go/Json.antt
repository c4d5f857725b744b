-- ===== src/Go/Json.antt =====
-- Go's `encoding/json` on one type, as the store uses it.
use simple_gnomon.Prelude.{◌≡◌, ◌<◌, All}
use simple_gnomon.Prelude.Bytes.{Bytes}
use simple_gnomon.Bolt.{Res, ok}

pub record Codec (A : Type 0) : Type 0 where
  -- `json.Marshal(a)`
  pub marshal : A → Res Bytes
  -- the variable after `_ = json.Unmarshal(text, &x)`, from its zero value; the error is dropped
  pub decode : Bytes → A

-- What is written is read as `reread` says: encoding/json does not give every value back as it was.
abbrev pub Rereads : {A : Type 0} → Codec A → (A → A) → Type 0
Rereads {A} json reread =
    (a : A) (text : Bytes) → json.marshal a ≡ ok text → json.decode text ≡ reread a

-- Values that are read back as they were written: numbers of Go's integer types, and slices of them.
abbrev pub Exact : {A : Type 0} → Codec A → Type 0
Exact json = Rereads json (λ a. a)

-- A value is read back as it was written.
abbrev pub ReadsBack : {A : Type 0} → Codec A → A → Type 0
ReadsBack json a = (text : Bytes) → json.marshal a ≡ ok text → json.decode text ≡ a

-- A text of ASCII, which encoding/json gives back as it was; other texts may hold what is no UTF-8,
-- and that it replaces.
abbrev pub IsAscii : Bytes → Type 0
IsAscii s = All (λ c. c < 128) s
