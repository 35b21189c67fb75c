-- ===== src/Secrets.antt =====
-- backend/shared_domain/artifact_crypto.py and backend/shared_domain/secrets_store.py: sealed artifacts
-- and the local store of secrets. Both encrypt with the bytes of a digest of the key, repeated. A
-- byte is a number below 256; `Codec` holds what Python's libraries do. The folder of the store is
-- the list of its files; a new identifier is an argument.
pub mod Cipher
pub mod RoundTrip
use Prim.Native.Char.{Char, code}
use Prim.Native.Nat.{bit_xor}
use Prim.Native.String.{◌++◌}
use schema_pilot.Base.{
  ℕ, zero, suc, ◌%◌, String, Bool, true, false, not, ◌&&◌, Option, none, some, List, [], ◌∷◌, ◌==◌,
  if◌then◌else◌, length, strip, is_empty, eqb, Dict, lookup, insert,
}
use schema_pilot.Base.Json.{Json, object, end, Fields, as_dict}
use schema_pilot.Errors.{Error, value_error, Result, ok, err}
use schema_pilot.Auth.{has_prefix}

abbrev pub Bytes : Type 0
Bytes = List ℕ

pub record Codec : Type 0 where
  pub utf8_encode : String → Bytes
  pub utf8_decode : Bytes → Option String
  pub b64encode : Bytes → String
  pub b64decode : String → Option Bytes
  pub sha256 : Bytes → Bytes
  pub dumps : Fields → String
  pub loads : String → Option Json

pub record ArtifactCryptoConfig : Type 0 where
  pub enabled : Bool
  pub key_id : String
  pub key_material : String

-- What `encrypt_payload` returns: with "encrypted" false, or true.
pub data SealedPayload : Type 0 where
  plain : Fields → SealedPayload
  encrypted : String → String → SealedPayload

-- `key[index]`
unfoldable pub byte_at : ℕ → Bytes → ℕ
byte_at i [] = 0
byte_at zero (b ∷ bs) = b
byte_at (suc i) (b ∷ bs) = byte_at i bs

-- `bytes(byte ^ key[idx % len(key)] for idx, byte in enumerate(payload))`, from an index on
unfoldable pub xor_bytes : Bytes → ℕ → Bytes → Bytes
unfolding byte_at
xor_bytes key i [] = []
xor_bytes key i (b ∷ bs) = bit_xor b (byte_at (i % length key) key) ∷ xor_bytes key (suc i) bs

-- A file of the store.
pub record SecretFile : Type 0 where
  pub scope : String
  pub key : String
  pub ciphertext : String

-- `text.replace("/", "__")`
unfoldable pub flatten_path : String → String
flatten_path String.[] = String.[]
flatten_path (String.◌∷◌ c s) =
    let rest = flatten_path s in if eqb (code c) 47 then "__" ++ rest else String.◌∷◌ c rest

-- `text.removeprefix(prefix)`, where it has the prefix
unfoldable pub behind_prefix : String → String → String
behind_prefix String.[] s = s
behind_prefix (String.◌∷◌ c p) String.[] = String.[]
behind_prefix (String.◌∷◌ c p) (String.◌∷◌ d s) = behind_prefix p s

abbrev pub local_prefix : String
local_prefix = "secret://local/"

-- `_path_for_reference`: the name of the file
unfoldable pub path_for_reference : String → Result String
unfolding flatten_path
path_for_reference reference =
    if has_prefix local_prefix reference
    then ok (flatten_path (behind_prefix local_prefix reference) ++ ".json")
    else err (value_error "secret_reference_invalid")

-- `f"secret://local/{scope}/{key}/{ref_id}"`
unfoldable pub local_reference : String → String → String → String
local_reference scope key ref_id = local_prefix ++ (scope ++ ("/" ++ (key ++ ("/" ++ ref_id))))

module _ (codec : Codec) where
  -- `_derive_key`
  unfoldable pub derive_key : String → Bytes
  derive_key material = codec.sha256 (codec.utf8_encode material)

  -- `_encrypt`
  unfoldable pub encrypt : String → String → String
  encrypt plaintext key_material =
      codec.b64encode (xor_bytes (derive_key key_material) 0 (codec.utf8_encode plaintext))

  -- bytes that are no UTF-8 raise
  unfoldable pub decoded : Option String → Result String
  decoded none = err (value_error "secret_payload_invalid")
  decoded (some t) = ok t

  -- a text that is no base64 raises
  unfoldable pub decrypted : Bytes → Option Bytes → Result String
  decrypted key none = err (value_error "secret_payload_invalid")
  decrypted key (some bytes) = decoded (codec.utf8_decode (xor_bytes key 0 bytes))

  -- `_decrypt`
  unfoldable pub decrypt : String → String → Result String
  unfolding decoded
  decrypt ciphertext key_material = decrypted (derive_key key_material) (codec.b64decode ciphertext)

  unfoldable pub encrypt_payload : Fields → ArtifactCryptoConfig → SealedPayload
  encrypt_payload payload config =
      if config.enabled
      then encrypted config.key_id (encrypt (codec.dumps payload) config.key_material)
      else plain payload

  unfoldable pub parsed_payload : Option Json → Result Fields
  parsed_payload none = err (value_error "artifact_payload_invalid")
  parsed_payload (some parsed) = elim (as_dict parsed) [
    | none ↦ err (value_error "artifact_payload_invalid")
    | some d ↦ ok d
  ]

  unfoldable pub parse_payload : Result String → Result Fields
  parse_payload (err e) = err e
  parse_payload (ok plaintext) = parsed_payload (codec.loads plaintext)

  unfoldable pub decrypt_payload : SealedPayload → ArtifactCryptoConfig → Result Fields
  decrypt_payload (plain payload) config = ok payload
  decrypt_payload (encrypted key_id ciphertext) config =
      if is_empty (strip ciphertext)
      then err (value_error "artifact_payload_invalid")
      else parse_payload (decrypt (strip ciphertext) config.key_material)

  -- the file is written where the reference has a path
  unfoldable pub write_secret :
      String → SecretFile → Result String → Dict SecretFile → Result String × Dict SecretFile
  write_secret reference file (err e) folder = (err e, folder)
  write_secret reference file (ok path) folder = (ok reference, insert path file folder)

  -- The local store: the reference, and the folder with the new file.
  unfoldable pub put_secret :
      String → String → String → String → String → Dict SecretFile → Result String × Dict SecretFile
  put_secret ref_id master_key scope key value folder =
      let reference = local_reference scope key ref_id in
      let file : SecretFile = record {
        scope = scope;
        key = key;
        ciphertext = encrypt value master_key;
      } in
      if is_empty value
      then (err (value_error "secret_value_required"), folder)
      else write_secret reference file (path_for_reference reference) folder

  -- with the file in hand
  unfoldable pub read_secret : String → Option SecretFile → Result String
  read_secret master_key none = err (value_error "secret_not_found")
  read_secret master_key (some file) =
      if is_empty file.ciphertext
      then err (value_error "secret_payload_invalid")
      else decrypt file.ciphertext master_key

  unfoldable pub read_path : String → Result String → Dict SecretFile → Result String
  read_path master_key (err e) folder = err e
  read_path master_key (ok path) folder = read_secret master_key (lookup path folder)

  unfoldable pub get_secret : String → String → Dict SecretFile → Result String
  get_secret master_key reference folder =
      read_path master_key (path_for_reference reference) folder
