-- ===== src/Platform.antt =====
-- What the program takes from outside its own sources: the parsers and hashes of the standard
-- library, the Ed25519 library and the key files. Every component that needs them is given one
-- `Platform`; what it relies on beyond the types is a hypothesis of the theorem that does.
use grantlayer.Prelude.{ℕ, String, Bool, Option, List}
use grantlayer.Prelude.Int.{ℤ}

-- A value inside a JSON object, as far as the program looks at it: of `array` and `nested` it
-- reads only that they are no numbers, and `real` is any float.
pub data Json : Type 0 where
  null : Json
  boolean : Bool → Json
  integer : ℤ → Json
  real : Json
  text : String → Json
  array : Json
  nested : Json

-- What `json.loads` returns at the top: an object with its keys, each once, or anything else.
pub data Document : Type 0 where
  dict : List (String × Json) → Document
  non_dict : Document

-- A `datetime`: with a time zone, as the instant it names, or without one, as its clock reading.
-- Both count microseconds.
pub data DateTime : Type 0 where
  aware : ℕ → DateTime
  naive : ℕ → DateTime

pub record Platform : Type 0 where
  -- `datetime.fromisoformat`; `none` is ValueError
  pub fromisoformat : String → Option DateTime
  -- `json.loads`; `none` is ValueError
  pub loads : String → Option Document
  -- `json.dumps` of an object with these entries, compact, in this order
  pub dumps : List (String × Json) → String
  -- `hashlib.sha256(s.encode()).hexdigest()`
  pub sha256 : String → String
  -- the public key file of a key id, if it is there and readable
  pub keyring : String → Option String
  -- the id of the private key at hand
  pub key_id : String
  -- `private_key.sign`, in hexadecimal
  pub sign : String → String
  -- `public_key.verify` of a public key, a signature in hexadecimal and a payload; `false` is
  -- InvalidSignature, or the ValueError of `bytes.fromhex`
  pub verify : String → String → String → Bool
