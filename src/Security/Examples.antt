-- ===== src/Security/Examples.antt =====
-- A tenant with one principal that may publish: the properties at these concrete values.
use eduvijna_aieos_backend.Prelude.{◌≡◌, refl, true, none, some, List, [], ◌∷◌, ok}
use eduvijna_aieos_backend.Python.Text.{Text, codes, text_eq, text_mem}
use eduvijna_aieos_backend.Python.Scalars.{Datetime}
use eduvijna_aieos_backend.Security.Authorization.{Tables, allow}
use eduvijna_aieos_backend.Security.Authorization.Decisions.{
  decide_capability, decide_tenant_access,
}
use eduvijna_aieos_backend.Security.Authorization.Decisions.Grounds.{IsAuthorized}
use eduvijna_aieos_backend.Security.Authorization.Decisions.Allowed.{
  decide_capability-IsAuthorized, decide_capability-decide_tenant_access,
}

abbrev tables : Tables
tables = record {
  principals =
      record { principal_id = 8; status = codes "ACTIVE"; principal_kind = some (codes "HUMAN") }
      ∷ [];
  tenants = record { tenant_id = 1; status = codes "ACTIVE" } ∷ [];
  tenant_memberships =
      record {
        tenant_id = 1;
        principal_id = 8;
        status = codes "ACTIVE";
        expires_at = none;
        revoked_at = none;
      }
      ∷ [];
  capability_grants =
      record {
        tenant_id = 1;
        principal_id = 8;
        capability = codes "content.publish";
        status = codes "ACTIVE";
        expires_at = some (record { is_aware = true; instant = 9 });
        revoked_at = none;
      }
      ∷ [];
}

abbrev known : List Text
known = codes "content.publish" ∷ []

abbrev now : Datetime
now = record { is_aware = true; instant = 5 }

is_allowed : decide_capability known tables (ok now) 8 1 (codes "content.publish") ≡ ok allow
unfolding decide_capability text_eq text_mem
is_allowed = refl

decide_capability-IsAuthorized_example : IsAuthorized known tables now 8 1 (codes "content.publish")
decide_capability-IsAuthorized_example =
    decide_capability-IsAuthorized known tables now 8 1 (codes "content.publish") is_allowed

decide_capability-decide_tenant_access_example : decide_tenant_access tables (ok now) 8 1 ≡ ok allow
decide_capability-decide_tenant_access_example =
    decide_capability-decide_tenant_access known tables (ok now) 8 1 (codes "content.publish")
      is_allowed
