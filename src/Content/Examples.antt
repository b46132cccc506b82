-- ===== src/Content/Examples.antt =====
-- A content that is created, reviewed and published: the properties at these concrete values.
use eduvijna_aieos_backend.Prelude.{
  ℕ, ◌+◌, ◌≡◌, refl, true, false, Option, none, some, [], ◌∷◌, ok, err, In, inl,
}
use eduvijna_aieos_backend.Python.Text.{Text, codes, strip, text_eq}
use eduvijna_aieos_backend.Python.Scalars.{pos, Datetime}
use eduvijna_aieos_backend.Content.Vocabulary.{ContentResult, human, in_review, approved}
use eduvijna_aieos_backend.Content.Json.{
  Value, mapping, sequence, string, integer, entry, end, cons, nil, text, freeze_json_value,
}
use eduvijna_aieos_backend.Content.Json.Frozen.{freeze_json_value-IsFrozen}
use eduvijna_aieos_backend.Content.Payload.{ContentPayload, all_hex, from_mapping}
use eduvijna_aieos_backend.Content.Payload.Integrity.{IsOf, from_mapping-IsOf}
use eduvijna_aieos_backend.Content.Version.{Content, ContentVersion}
use eduvijna_aieos_backend.Content.Review.{approve, normalize_reason_code}
use eduvijna_aieos_backend.Content.Review.Validity.{normalize_reason_code-CodeFits}
use eduvijna_aieos_backend.Content.Database.{Database}
use eduvijna_aieos_backend.Security.Audit.{api}
use eduvijna_aieos_backend.Content.Database.Soundness.{IsReviewed, Approval}
use eduvijna_aieos_backend.Content.Commands.{Ports, Request, Occasion}
use eduvijna_aieos_backend.Content.Commands.Create.{
  new_content, CreateContentCommand, create_content_in_uow,
}
use eduvijna_aieos_backend.Content.Commands.Append.{append_version_in_uow}
use eduvijna_aieos_backend.Content.Commands.Service.{submit}
use eduvijna_aieos_backend.Content.Commands.Decision.{decide}
use eduvijna_aieos_backend.Content.Commands.Publish.{PublicationResult, publish}
use eduvijna_aieos_backend.Content.Commands.History.{
  no_rows, Reach, start, step, created, appended, submitted, decided, published, Reach-IsReviewed,
  Reach-Approval,
}
use eduvijna_aieos_backend.Content.Commands.Lineage.{AreLinear, append_version_in_uow-AreLinear}
use eduvijna_aieos_backend.Content.Commands.Retry.{publish-publish}

abbrev lesson : Value
lesson = mapping false (
    entry (text (codes "title")) (string (codes "Light"))
      (entry (text (codes "steps")) (sequence false (cons (integer (pos 1)) nil)) end))

abbrev frozen_lesson : Value
frozen_lesson = mapping true (
    entry (text (codes "title")) (string (codes "Light"))
      (entry (text (codes "steps")) (sequence true (cons (integer (pos 1)) nil)) end))

lesson_freezes : freeze_json_value lesson ≡ ok frozen_lesson
unfolding freeze_json_value
lesson_freezes = refl

freeze_json_value-IsFrozen_example : freeze_json_value frozen_lesson ≡ ok frozen_lesson
freeze_json_value-IsFrozen_example =
    (freeze_json_value-IsFrozen lesson frozen_lesson lesson_freezes).1

abbrev dumped : Value → Option Text
dumped v = some (codes "{}")

abbrev hashed : Text → Text
hashed t = codes "aaaaaaaaaaaaaaaaaaaaaaaaaaaaaaaaaaaaaaaaaaaaaaaaaaaaaaaaaaaaaaaa"

hashed-hex : all_hex (hashed (codes "{}")) ≡ true
unfolding all_hex
hashed-hex = refl

from_mapping-IsOf_example :
    (p : ContentPayload) × (from_mapping dumped hashed lesson ≡ ok p)
    × IsOf dumped hashed lesson (codes "{}") p
from_mapping-IsOf_example =
    from_mapping-IsOf dumped hashed false _ (codes "{}") (refl, (tt, ((refl, (tt, tt)), tt))) refl
      refl hashed-hex

code_kept : normalize_reason_code (some (codes " tone.ok ")) ≡ ok (some (codes "tone.ok"))
unfolding normalize_reason_code strip
code_kept = refl

normalize_reason_code-CodeFits_example :
    normalize_reason_code (some (codes "tone.ok")) ≡ ok (some (codes "tone.ok"))
normalize_reason_code-CodeFits_example =
    (normalize_reason_code-CodeFits (some (codes " tone.ok ")) (some (codes "tone.ok")) code_kept).1

abbrev ports : Ports
ports = record {
  str_uuid = λ u. u ∷ [];
  fingerprint_material = λ v. codes "f";
  hash_idempotency_key = λ t. t;
  authorize = λ tenant principal content version capability. ok tt;
  evaluate_comment = λ t. ok tt;
  schema_content_type = λ schema version. some (codes "lesson");
  validate_payload = λ schema version body. ok tt;
  validate_current_use = λ tenant principal content version. ok tt;
  evaluate_publication = λ tenant content version. ok tt;
}

abbrev at : ℕ → Datetime
at n = record { is_aware = true; instant = n }

abbrev occasion : ℕ → Occasion
occasion n = record {
  event_context = record {
    correlation_id = 70;
    causation_id = 71;
    actor_principal_id = 8;
    effective_actor_id = 8;
  };
  audit_provenance = record {
    executing_principal_id = 8;
    execution_channel = api;
    delegation_id = none;
    trace_id = none;
  };
  now = at n;
  fresh = record {
    review_decision_id = 100 + n;
    publication_id = 200 + n;
    workflow_instance_id = 300 + n;
    workflow_start_intent_id = 400 + n;
    workflow_command_id = 500 + n;
    workflow_command_intent_id = 600 + n;
    event_id = 700 + n;
    audit_record_id = 800 + n;
  };
}

abbrev request : ℕ → Request
request revision = record {
  execution_tenant_id = 1;
  principal_id = 8;
  content_id = 40;
  version_id = 41;
  expected_aggregate_revision = revision;
  idempotency_key = codes "k";
}

abbrev command : CreateContentCommand
command = record {
  content_type = codes "lesson";
  title = codes "Light";
  description = [];
  locale = codes "en";
}

abbrev version : ContentVersion
version = record {
  version_id = 41;
  tenant_id = 1;
  content_id = 40;
  version_number = 1;
  parent_version_id = none;
  schema_id = codes "lesson";
  schema_version = 1;
  payload = record { body = frozen_lesson; sha256 = hashed (codes "{}") };
  origin = human;
  created_at = at 2;
  created_by_principal_id = 8;
}

-- The tables that a call commits.
abbrev committed : {A : Type 0} → ContentResult (Database × A) → Database
committed (ok out) = out.0
committed (err e) = no_rows

unfoldable db1 : Database
unfolding create_content_in_uow
db1 = committed (create_content_in_uow ports 1 8 40 command (occasion 1) no_rows)

unfoldable db2 : Database
unfolding db1 append_version_in_uow
db2 = committed (
    append_version_in_uow ports.str_uuid 1 0 version (ok tt) (at 2) (occasion 2).event_context 702
      db1)

unfoldable db3 : Database
unfolding db2 submit
db3 = committed (submit ports (request 1) (occasion 3) db2)

unfoldable db4 : Database
unfolding db3 decide
db4 = committed (decide ports approve none none (request 2) (occasion 4) db3)

unfoldable db5 : Database
unfolding db4 publish
db5 = committed (publish ports (request 3) (occasion 5) db4)

created_1 :
    create_content_in_uow ports 1 8 40 command (occasion 1) no_rows
    ≡ ok (db1, new_content 1 8 40 command (codes "lesson") (at 1))
unfolding db1 create_content_in_uow strip text_eq
created_1 = refl

appended_2 :
    append_version_in_uow ports.str_uuid 1 0 version
      (ok tt)
      (at 2)
      (occasion 2).event_context
      702
      db1
    ≡ ok (db2, 1)
unfolding db2 strip text_eq
appended_2 = refl

submitted_3 :
    submit ports (request 1) (occasion 3) db2
    ≡ ok (
      db3,
      record {
        content_id = 40;
        version_id = 41;
        stewardship_state = in_review;
        aggregate_revision = 2;
      },
    )
unfolding db3 strip text_eq
submitted_3 = refl

decided_4 :
    decide ports approve none none (request 2) (occasion 4) db3
    ≡ ok (
      db4,
      record {
        review_decision_id = 104;
        content_id = 40;
        version_id = 41;
        decision = approve;
        reason_code = none;
        comment = none;
        decided_at = at 4;
        stewardship_state = approved;
        aggregate_revision = 3;
      },
    )
unfolding db4 strip text_eq
decided_4 = refl

abbrev result : PublicationResult
result = record {
  publication_id = 205;
  content_id = 40;
  version_id = 41;
  approval_decision_id = 104;
  published_at = at 5;
  published_version_id = 41;
  aggregate_revision = 4;
}

published_5 : publish ports (request 3) (occasion 5) db4 ≡ ok (db5, result)
unfolding db5 strip text_eq
published_5 = refl

Reach-db5 : Reach ports db5
Reach-db5 =
    step db4 db5
      (step db3 db4
        (step db2 db3
          (step db1 db2
            (step no_rows db1 start (
              created 1 8 40 command (occasion 1)
                (new_content 1 8 40 command (codes "lesson") (at 1)) no_rows db1 created_1))
            (appended 1 0 version (ok tt) (at 2) (occasion 2).event_context 702 1 db1 db2
              appended_2))
          (submitted (request 1) (occasion 3) _ db2 db3 submitted_3))
        (decided approve none none (request 2) (occasion 4) _ db3 db4 decided_4))
      (published (request 3) (occasion 5) result db4 db5 published_5)

Reach-IsReviewed_example : IsReviewed db5
Reach-IsReviewed_example = Reach-IsReviewed ports db5 Reach-db5

abbrev content_5 : Content
content_5 = record (new_content 1 8 40 command (codes "lesson") (at 1)) {
  stewardship_state = approved;
  current_version_id = some 41;
  published_version_id = some 41;
  aggregate_revision = 4;
  updated_at = at 5;
}

content_5-In : In content_5 db5.contents
unfolding db5 strip text_eq
content_5-In = inl refl

Reach-Approval_example : Approval db5.reviews 1 40 41
Reach-Approval_example = Reach-Approval ports db5 content_5 41 Reach-db5 content_5-In refl

no_versions : AreLinear db1.versions
unfolding db1 strip text_eq
no_versions = tt

append_version_in_uow-AreLinear_example :
    AreLinear db2.versions × (db2.versions ≡ version ∷ db1.versions)
append_version_in_uow-AreLinear_example =
    append_version_in_uow-AreLinear ports.str_uuid 1 0 version (ok tt) (at 2)
      (occasion 2).event_context 702 db1 db2 1 no_versions appended_2

publish-publish_example : publish ports (request 3) (occasion 9) db5 ≡ ok (db5, result)
publish-publish_example =
    publish-publish ports (request 3) (occasion 5) (occasion 9) db4 db5 result published_5
