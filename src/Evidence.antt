-- ===== src/Evidence.antt =====
-- backend/shared_domain/evidence_store.py: the immutable store of evidence bundles.
-- The store is the list of the files below `evidence_store/`, one envelope to a file; a file is
-- found by its workspace's directory and its name.
pub mod Uri
pub mod Immutable
pub mod RoundTrip
pub use Uri.{build_evidence_uri, parse_evidence_uri, evidence_uri_prefix}
use Prim.Native.String.{◌++◌}
use schema_pilot.Base.{
  ℕ, String, Bool, true, false, ◌&&◌, Option, none, some, List, [], ◌∷◌, ◌==◌, if◌then◌else◌, strip,
  lower, is_empty, spaces_to_underscores, take_text,
}
use schema_pilot.Errors.{Error, Result, ok, err, not_found, value_error}

-- What hashlib and the artifact encryption make of a payload `P`: the SHA-256 hex digest of its
-- canonical JSON, and the JSON text of the fields that `encrypt_payload` returns.
pub record Sealer (P : Type 0) : Type 0 where
  pub content_hash : P → String
  pub encrypt_payload : P → String

pub record Envelope : Type 0 where
  pub evidence_id : String
  pub workspace_id : String
  pub bundle_type : String
  pub content_hash : String
  pub encrypted_payload : String

abbrev pub Store : Type 0
Store = List Envelope

pub record StoredEvidenceBundle : Type 0 where
  pub evidence_id : String
  pub workspace_id : String
  pub evidence_bundle_uri : String
  pub content_hash : String

-- The file `<workspace_id>/<evidence_id>.json`.
abbrev pub find_bundle : String → String → Store → Option Envelope
find_bundle workspace_id evidence_id [] = none
find_bundle workspace_id evidence_id (e ∷ s) =
    if e.workspace_id == workspace_id && e.evidence_id == evidence_id
    then some e
    else find_bundle workspace_id evidence_id s

-- Two envelopes have one JSON text.
abbrev pub same_envelope : Envelope → Envelope → Bool
same_envelope a b =
    a.evidence_id == b.evidence_id
    && (a.workspace_id == b.workspace_id
        && (a.bundle_type == b.bundle_type
            && (a.content_hash == b.content_hash && a.encrypted_payload == b.encrypted_payload)))

-- `bundle_type.strip().lower().replace(" ", "_") or "generic"`
unfoldable pub safe_bundle_type : String → String
safe_bundle_type bundle_type =
    let name = spaces_to_underscores (lower (strip bundle_type)) in
    if is_empty name then "generic" else name

-- The envelope that a call writes; `evidence_id` is `None` where the caller gives no name.
unfoldable pub envelope_of :
    {P : Type 0} → Sealer P → String → P → String → Option String → Envelope
unfolding safe_bundle_type
envelope_of sealer workspace_id payload bundle_type evidence_id =
    let content_hash = sealer.content_hash payload in
    let safe = safe_bundle_type bundle_type in
    let made : String = (safe ++ "_") ++ take_text 24 content_hash in
    record {
      evidence_id = elim evidence_id [ none ↦ made | some i ↦ if is_empty i then made else i ];
      workspace_id = workspace_id;
      bundle_type = safe;
      content_hash = content_hash;
      encrypted_payload = sealer.encrypt_payload payload;
    }

stored_as : Envelope → StoredEvidenceBundle
stored_as e = record {
  evidence_id = e.evidence_id;
  workspace_id = e.workspace_id;
  evidence_bundle_uri = build_evidence_uri e.workspace_id e.evidence_id;
  content_hash = e.content_hash;
}

-- Writes the envelope, or raises where the file holds another one.
unfoldable pub write_envelope : Envelope → Store → Result StoredEvidenceBundle × Store
unfolding stored_as
write_envelope e s = elim (find_bundle e.workspace_id e.evidence_id s) [
  | none ↦ (ok (stored_as e), e ∷ s)
  | some existing ↦ if same_envelope existing e then (ok (stored_as e), s) else (
    err (value_error "Evidence bundle immutability violation: existing bundle content differs."),
    s,
  )
]

unfoldable pub store_evidence_bundle :
    {P : Type 0}
    → Sealer P
    → String
    → P
    → String
    → Option String
    → Store
    → Result StoredEvidenceBundle × Store
unfolding envelope_of
store_evidence_bundle sealer workspace_id payload bundle_type evidence_id s =
    write_envelope (envelope_of sealer workspace_id payload bundle_type evidence_id) s

-- The envelope as it is read back; `decrypt_payload` of it is not modelled here.
unfoldable pub load_evidence_bundle : String → String → Store → Result Envelope
load_evidence_bundle workspace_id evidence_id s = elim (find_bundle workspace_id evidence_id s) [
  | none ↦ err (not_found "Evidence bundle not found.")
  | some e ↦ ok e
]
