-- ===== src/Evidence/Immutable.antt =====
-- The store only grows: what it holds can be read back, unchanged, for ever.
use schema_pilot.Base.{
  String, ◌≡◌, true, Option, some, arith, eq_iff, eq_refl, Option-cases, inl, inr,
}
use schema_pilot.Errors.{ok}
use schema_pilot.Evidence.{
  Sealer, Envelope, Store, StoredEvidenceBundle, find_bundle, same_envelope, write_envelope,
  envelope_of, stored_as, store_evidence_bundle, load_evidence_bundle,
}

same-eq : (a b : Envelope) → same_envelope a b ≡ true → a ≡ b
same-eq a b h = ground (
  arith,
  eq_iff a.evidence_id b.evidence_id,
  eq_iff a.workspace_id b.workspace_id,
  eq_iff a.bundle_type b.bundle_type,
  eq_iff a.content_hash b.content_hash,
  eq_iff a.encrypted_payload b.encrypted_payload,
)

-- Whatever is stored, by a call that succeeds or raises, every bundle that could be loaded before
-- is loaded after it, unchanged.
pub load_after_store :
    {P : Type 0} (sealer : Sealer P) (ws : String) (payload : P) (kind : String)
    (name : Option String) (s : Store) (w i : String) (e : Envelope)
    → load_evidence_bundle w i s ≡ ok e
    → load_evidence_bundle w i (store_evidence_bundle sealer ws payload kind name s).1 ≡ ok e
unfolding load_evidence_bundle store_evidence_bundle write_envelope
load_after_store sealer ws payload kind name s w i e h =
    let n = envelope_of sealer ws payload kind name in
    ground (arith, eq_iff n.workspace_id w, eq_iff n.evidence_id i)

same_refl : (a : Envelope) → same_envelope a a ≡ true
same_refl a = simp eq_refl

write_loads :
    (e : Envelope) (s : Store) (b : StoredEvidenceBundle)
    → (write_envelope e s).0 ≡ ok b
    → let s' = (write_envelope e s).1 in
      (find_bundle e.workspace_id e.evidence_id s' ≡ some e)
      × (b ≡ stored_as e)
      × (write_envelope e s' ≡ (ok b, s'))
unfolding write_envelope
write_loads e s b h = elim (Option-cases (find_bundle e.workspace_id e.evidence_id s)) [
  | inl free ↦ ground (
    arith,
    free,
    same_refl e,
    eq_iff e.workspace_id e.workspace_id,
    eq_iff e.evidence_id e.evidence_id,
  )
  | inr (old, there) ↦ ground (arith, there, same-eq old e)
]

-- A bundle that was stored is loaded under its identifier with the hash of its payload, and storing
-- it again succeeds and changes nothing.
pub store_loads :
    {P : Type 0} (sealer : Sealer P) (ws : String) (payload : P) (kind : String)
    (name : Option String) (s : Store) (b : StoredEvidenceBundle)
    → (store_evidence_bundle sealer ws payload kind name s).0 ≡ ok b
    → let s' = (store_evidence_bundle sealer ws payload kind name s).1 in
      (load_evidence_bundle b.workspace_id b.evidence_id s'
        ≡ ok (envelope_of sealer ws payload kind name))
      × (b.content_hash ≡ sealer.content_hash payload)
      × (store_evidence_bundle sealer ws payload kind name s' ≡ (ok b, s'))
unfolding load_evidence_bundle store_evidence_bundle stored_as
store_loads sealer ws payload kind name s b h =
    let e = envelope_of sealer ws payload kind name in
    let (found, same, again) = write_loads e s b h in ground (arith, found, same, again)
