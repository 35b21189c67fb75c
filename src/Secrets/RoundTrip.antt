-- ===== src/Secrets/RoundTrip.antt =====
-- What was encrypted is read back.
use schema_pilot.Base.{
  String, false, some, ◌≡◌, refl, ap, ◌∙◌, ◌==◌, strip, is_empty, eq_refl, Dict, lookup, insert,
  lookup-insert, Bool-cases, inl, inr,
}
use schema_pilot.Base.Json.{object, Fields}
use schema_pilot.Errors.{ok}
use schema_pilot.Secrets.{
  Codec, ArtifactCryptoConfig, encrypted, decoded, decrypted, parsed_payload, read_path,
  write_secret, xor_bytes, SecretFile, path_for_reference, local_reference, derive_key, encrypt,
  decrypt, encrypt_payload, parse_payload, decrypt_payload, put_secret, read_secret, get_secret,
}
use schema_pilot.Secrets.Cipher.{IsBytes, xor_bytes-xor_bytes}

-- What the libraries promise for a text and a key: the text is read back from its UTF-8, the cipher
-- from its base64, which has no whitespace around it, and both the UTF-8 and the digest are bytes.
abbrev pub IsCoded : Codec → String → String → Type 0
IsCoded codec t key_material =
    let payload = codec.utf8_encode t in
    let key = derive_key codec key_material in
    let cipher = xor_bytes key 0 payload in
    (codec.utf8_decode payload ≡ some t)
    × IsBytes payload
    × IsBytes key
    × (codec.b64decode (codec.b64encode cipher) ≡ some cipher)
    × (strip (codec.b64encode cipher) ≡ codec.b64encode cipher)
    × (is_empty (codec.b64encode cipher) ≡ false)

module _ (codec : Codec) where
  decrypt-encrypt :
      (t key_material : String)
      → IsCoded codec t key_material
      → decrypt codec (encrypt codec t key_material) key_material ≡ ok t
  unfolding decrypt encrypt decrypted decoded
  decrypt-encrypt t key_material coded =
      let key = derive_key codec key_material in
      ap (decrypted codec key) coded.3
      ∙ ap (λ bs. decoded codec (codec.utf8_decode bs))
          (xor_bytes-xor_bytes key 0 (codec.utf8_encode t) coded.2 coded.1)
      ∙ ap (decoded codec) coded.0

  sealed_read :
      (payload : Fields) (key_id : String) (config later : ArtifactCryptoConfig)
      → later.key_material ≡ config.key_material
      → codec.loads (codec.dumps payload) ≡ some (object payload)
      → IsCoded codec (codec.dumps payload) config.key_material
      → decrypt_payload codec
          (encrypted key_id (encrypt codec (codec.dumps payload) config.key_material))
          later
        ≡ ok payload
  unfolding decrypt_payload parse_payload parsed_payload
  sealed_read payload key_id config later same read coded =
      let cipher = encrypt codec (codec.dumps payload) config.key_material in
      let stripped : strip cipher ≡ cipher = unfold encrypt in coded.4 in
      let filled : is_empty cipher ≡ false = unfold encrypt in coded.5 in
      rw (stripped, filled, same)
        (ap (parse_payload codec) (decrypt-encrypt (codec.dumps payload) config.key_material coded)
          ∙ ap (parsed_payload codec) read)

  -- A payload is read back from what was sealed, with the same key material and whatever the name of
  -- the key, both where encryption is enabled and where it is not; the JSON text of the payload is
  -- read back as the payload.
  pub decrypt_payload-encrypt_payload :
      (payload : Fields) (config later : ArtifactCryptoConfig)
      → later.key_material ≡ config.key_material
      → codec.loads (codec.dumps payload) ≡ some (object payload)
      → IsCoded codec (codec.dumps payload) config.key_material
      → decrypt_payload codec (encrypt_payload codec payload config) later ≡ ok payload
  unfolding encrypt_payload decrypt_payload
  decrypt_payload-encrypt_payload payload config later same read coded =
      elim (Bool-cases config.enabled) [
        | inl sealing ↦ rw sealing (sealed_read payload config.key_id config later same read coded)
        | inr open_text ↦ rw open_text refl
      ]

  put_found :
      (ref_id master_key scope key value path : String) (folder : Dict SecretFile)
      → is_empty value ≡ false
      → path_for_reference (local_reference scope key ref_id) ≡ ok path
      → put_secret codec ref_id master_key scope key value folder ≡ (
        ok (local_reference scope key ref_id),
        insert path
            (record { scope = scope; key = key; ciphertext = encrypt codec value master_key })
            folder,
      )
  unfolding put_secret write_secret
  put_found ref_id master_key scope key value path folder filled found =
      let file : SecretFile = record {
        scope = scope;
        key = key;
        ciphertext = encrypt codec value master_key;
      } in
      rw (filled, put_secret)
        (ap (λ r. write_secret codec (local_reference scope key ref_id) file r folder) found)

  file_read :
      (scope key master_key value : String)
      → IsCoded codec value master_key
      → read_secret codec master_key
          (some (record { scope = scope; key = key; ciphertext = encrypt codec value master_key }))
        ≡ ok value
  unfolding read_secret
  file_read scope key master_key value coded =
      let filled : is_empty (encrypt codec value master_key) ≡ false = unfold encrypt in coded.5 in
      rw filled (decrypt-encrypt value master_key coded)

  -- A secret that was put in the local store is read back under the reference that the store
  -- answered, and every other file of the folder is as it was.
  pub get_secret-put_secret :
      (ref_id master_key scope key value path other : String) (folder : Dict SecretFile)
      → is_empty value ≡ false
      → path_for_reference (local_reference scope key ref_id) ≡ ok path
      → (path == other) ≡ false
      → IsCoded codec value master_key
      → let r = put_secret codec ref_id master_key scope key value folder in
        (r.0 ≡ ok (local_reference scope key ref_id))
        × (get_secret codec master_key (local_reference scope key ref_id) r.1 ≡ ok value)
        × (lookup other r.1 ≡ lookup other folder)
  unfolding get_secret read_path
  get_secret-put_secret ref_id master_key scope key value path other folder filled found differ
        coded =
      let reference = local_reference scope key ref_id in
      let file : SecretFile = record {
        scope = scope;
        key = key;
        ciphertext = encrypt codec value master_key;
      } in
      let held : lookup path (insert path file folder) ≡ some file =
        lookup-insert path path file folder ∙ rw (eq_refl path) refl in
      rw (put_found ref_id master_key scope key value path folder filled found) (
        refl,
        ap (λ r. read_path codec master_key r (insert path file folder)) found
            ∙ ap (read_secret codec master_key) held
            ∙ file_read scope key master_key value coded,
        lookup-insert path other file folder ∙ rw differ refl,
      )
