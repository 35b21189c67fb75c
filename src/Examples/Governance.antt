-- ===== src/Examples/Governance.antt =====
-- The theorems on policy packs, retention, purges and evidence at concrete inputs.
use schema_pilot.Base.{
  String, ◌≡◌, ◌≢◌, refl, true, false, none, some, [], ◌∷◌, inl, inr, strip, lower,
  spaces_to_underscores, take_text, eq_iff, arith,
}
use schema_pilot.Errors.{ok}
use schema_pilot.Evidence.{
  Sealer, Envelope, Store, StoredEvidenceBundle, store_evidence_bundle, load_evidence_bundle,
  envelope_of, write_envelope,
}
use schema_pilot.Evidence.Immutable.{load_after_store, store_loads}
use schema_pilot.Evidence.Uri.{build_evidence_uri}
use schema_pilot.Review.{no_review}
use schema_pilot.Policies.{normalize_decision}
use schema_pilot.PolicyPack.Invariants.{
  Template, Pack, evaluate_policy_pack_invariants, load_policy_pack,
}
use schema_pilot.PolicyPack.Model.{
  PackState, ChangeRequest, Row, active_pack, change, Db, get_effective_policy_pack,
  get_change_request_row, next_state,
}
use schema_pilot.PolicyPack.Decisions.{decide_policy_pack_change}
use schema_pilot.PolicyPack.Rollback.{rollback_policy_pack}
use schema_pilot.PolicyPack.Guarded.{guarded_keeps}
use schema_pilot.PolicyPack.RoundTrip.{apply-rollback}

abbrev analyst : Template
analyst = record {
  actor_type = "Human";
  roles = some ("analyst" ∷ []);
  attributes_is_object = true;
}

abbrev strict : Pack
strict = record { pack_id = "strict"; template_actor = some analyst }

abbrev base_state : PackState
base_state = record {
  workspace_id = "ws";
  pack_id = "base";
  pack_checksum = "b0";
  version = 3;
  previous_pack_id = "";
  previous_pack_checksum = "";
}

abbrev base_row : Row
base_row = record {
  policy_id = "p1";
  workspace_id = "ws";
  policy_type = "policy_pack";
  definition_ref = active_pack base_state;
  status = "active";
}

abbrev staged_request : ChangeRequest
staged_request = record {
  change_request_id = "c1";
  workspace_id = "ws";
  requested_pack_id = "strict";
  requested_pack_checksum = "s0";
  requester_actor_id = "alice";
  proposal_id = "q1";
  review_task_id = "t1";
  status = "staged";
  approved_by = "";
  decision_reason = "";
}

abbrev request_row : Row
request_row = record {
  policy_id = "c1";
  workspace_id = "ws";
  policy_type = "policy_pack_change_request";
  definition_ref = change staged_request;
  status = "staged";
}

abbrev db : Db
db = record {
  workspaces = "ws" ∷ [];
  policies = base_row ∷ request_row ∷ [];
  review = no_review;
  evidence = [];
}

guarded_keeps_example :
    get_effective_policy_pack "ws"
      (decide_policy_pack_change
        (strict ∷ [])
        "a1"
        "u1"
        "n1"
        "ws"
        "c1"
        "bob"
        "approve"
        "trial"
        true
        db).1
    ≡ get_effective_policy_pack "ws" db
guarded_keeps_example =
    guarded_keeps (strict ∷ []) "a1" "u1" "n1" "ws" "c1" "bob" "trial" "approve" true db
      (refl, (refl, tt)) (λ row found. inr (inl refl)) "ws"

words_differ : ◌≢◌ {A = String} "reject" "approve"
words_differ = ground (arith, eq_iff "reject" "approve")

abbrev requested : PackState
requested = next_state "ws" "strict" "s0" base_state

apply-rollback_example :
    let after =
      (decide_policy_pack_change
        (strict ∷ [])
        "a1"
        "u1"
        "n1"
        "ws"
        "c1"
        "bob"
        "approve"
        "fine"
        false
        db).1 in
    (get_effective_policy_pack "ws" after ≡ some requested)
    × ((rollback_policy_pack "ws" after).0 ≡ ok (next_state "ws" "base" "b0" requested))
    × (get_effective_policy_pack "ws" (rollback_policy_pack "ws" after).1
        ≡ some (next_state "ws" "base" "b0" requested))
unfolding get_change_request_row load_policy_pack evaluate_policy_pack_invariants normalize_decision
    lower strip
apply-rollback_example =
    apply-rollback (strict ∷ []) "a1" "u1" "n1" "ws" "c1" "bob" "fine" "approve" request_row
      base_row db strict (refl, (refl, tt)) refl refl refl refl refl (refl, refl) (refl, refl)

not_an_approval : normalize_decision "reject" ≢ "approve"
unfolding normalize_decision lower strip
not_an_approval = words_differ

abbrev sealer : Sealer String
sealer = record { content_hash = λ text. text; encrypt_payload = λ text. text }

abbrev stored : Store
stored = (store_evidence_bundle sealer "ws" "first" "Run Log" none []).1

abbrev first : Envelope
first = record {
  evidence_id = "run_log_first";
  workspace_id = "ws";
  bundle_type = "run_log";
  content_hash = "first";
  encrypted_payload = "first";
}

load_after_store_example :
    load_evidence_bundle "ws" "run_log_first"
      (store_evidence_bundle sealer "ws" "second" "run log" (some "run_log_first") stored).1
    ≡ ok first
unfolding load_evidence_bundle store_evidence_bundle write_envelope envelope_of
    spaces_to_underscores build_evidence_uri lower strip take_text
load_after_store_example =
    load_after_store sealer "ws" "second" "run log" (some "run_log_first") stored "ws"
      "run_log_first" first refl

store_loads_example :
    let b : StoredEvidenceBundle = record {
      evidence_id = "run_log_first";
      workspace_id = "ws";
      evidence_bundle_uri = "evidence://ws/run_log_first";
      content_hash = "first";
    } in
    (load_evidence_bundle "ws" "run_log_first" stored
      ≡ ok (envelope_of sealer "ws" "first" "Run Log" none))
    × (b.content_hash ≡ "first")
    × (store_evidence_bundle sealer "ws" "first" "Run Log" none stored ≡ (ok b, stored))
unfolding load_evidence_bundle store_evidence_bundle write_envelope envelope_of
    spaces_to_underscores build_evidence_uri lower strip take_text
store_loads_example =
    store_loads sealer "ws" "first" "Run Log" none []
      (record {
        evidence_id = "run_log_first";
        workspace_id = "ws";
        evidence_bundle_uri = "evidence://ws/run_log_first";
        content_hash = "first";
      })
      refl
