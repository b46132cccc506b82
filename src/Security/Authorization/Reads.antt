-- ===== src/Security/Authorization/Reads.antt =====
-- repository.py: the four fetches, and the bundles that one transaction reads.
use eduvijna_aieos_backend.Prelude.{Bool, ◌&&◌, Option, none, some, ◌==◌, ok, ◌>>=◌, first}
use eduvijna_aieos_backend.Python.Text.{Text, text_eq}
use eduvijna_aieos_backend.Python.Scalars.{Uuid, Datetime}
use eduvijna_aieos_backend.Security.Authorization.{
  Authority, PrincipalRow, PrincipalAuthorityRow, TenantRow, TenantAuthorityRow, MembershipRow,
  MembershipAuthorityRow, GrantRow, GrantAuthorityRow, Tables, coerce_principal_status,
  coerce_principal_kind, coerce_tenant_status, coerce_membership_status, coerce_grant_status,
}

abbrev pub principal_of_row : Option PrincipalRow → Authority (Option PrincipalAuthorityRow)
principal_of_row none = ok none
principal_of_row (some row) = do
  status ← coerce_principal_status row.status
  kind ← coerce_principal_kind row.principal_kind
  ok (some (record { principal_id = row.principal_id; status = status; principal_kind = kind }))

-- `_fetch_principal`
unfoldable pub fetch_principal : Tables → Uuid → Authority (Option PrincipalAuthorityRow)
unfolding coerce_principal_status coerce_principal_kind first
fetch_principal tables principal_id =
    principal_of_row (first (λ row. row.principal_id == principal_id) tables.principals)

abbrev pub tenant_of_row : Option TenantRow → Authority (Option TenantAuthorityRow)
tenant_of_row none = ok none
tenant_of_row (some row) = do
  status ← coerce_tenant_status row.status
  ok (some (record { tenant_id = row.tenant_id; status = status }))

-- `_fetch_tenant`
unfoldable pub fetch_tenant : Tables → Uuid → Authority (Option TenantAuthorityRow)
unfolding coerce_tenant_status first
fetch_tenant tables tenant_id =
    tenant_of_row (first (λ row. row.tenant_id == tenant_id) tables.tenants)

abbrev pub membership_of_row : Option MembershipRow → Authority (Option MembershipAuthorityRow)
membership_of_row none = ok none
membership_of_row (some row) = do
  status ← coerce_membership_status row.status
  ok (
      some (record {
        tenant_id = row.tenant_id;
        principal_id = row.principal_id;
        status = status;
        expires_at = row.expires_at;
        revoked_at = row.revoked_at;
      }))

abbrev pub is_membership_of : (tenant_id principal_id : Uuid) → MembershipRow → Bool
is_membership_of tenant principal row = row.tenant_id == tenant && row.principal_id == principal

-- `_fetch_membership`
unfoldable pub fetch_membership :
    Tables → (principal_id tenant_id : Uuid) → Authority (Option MembershipAuthorityRow)
unfolding coerce_membership_status first
fetch_membership tables principal tenant =
    membership_of_row (first (is_membership_of tenant principal) tables.tenant_memberships)

abbrev pub grant_of_row : Option GrantRow → Authority (Option GrantAuthorityRow)
grant_of_row none = ok none
grant_of_row (some row) = do
  status ← coerce_grant_status row.status
  ok (
      some (record {
        tenant_id = row.tenant_id;
        principal_id = row.principal_id;
        capability = row.capability;
        status = status;
        expires_at = row.expires_at;
        revoked_at = row.revoked_at;
      }))

abbrev pub is_grant_of : (tenant_id principal_id : Uuid) → Text → GrantRow → Bool
is_grant_of tenant principal capability row =
    row.tenant_id == tenant && row.principal_id == principal && text_eq row.capability capability

-- `_fetch_grant`
unfoldable pub fetch_grant :
    Tables → (principal_id tenant_id : Uuid) → Text → Authority (Option GrantAuthorityRow)
unfolding coerce_grant_status first
fetch_grant tables principal tenant capability =
    grant_of_row (first (is_grant_of tenant principal capability) tables.capability_grants)

pub record TenantAccessBundle : Type 0 where
  pub principal : Option PrincipalAuthorityRow
  pub tenant : Option TenantAuthorityRow
  pub membership : Option MembershipAuthorityRow
  pub evaluated_at : Datetime

pub record CapabilityBundle : Type 0 where
  pub principal : Option PrincipalAuthorityRow
  pub tenant : Option TenantAuthorityRow
  pub membership : Option MembershipAuthorityRow
  pub grant : Option GrantAuthorityRow
  pub evaluated_at : Datetime

unfoldable pub load_tenant_access_bundle :
    Tables → Authority Datetime → (principal_id tenant_id : Uuid) → Authority TenantAccessBundle
unfolding fetch_principal fetch_tenant fetch_membership
load_tenant_access_bundle tables clock principal_id tenant_id = do
  now ← clock
  principal ← fetch_principal tables principal_id
  tenant ← fetch_tenant tables tenant_id
  membership ← fetch_membership tables principal_id tenant_id
  ok (record {
    principal = principal;
    tenant = tenant;
    membership = membership;
    evaluated_at = now;
  })

unfoldable pub load_capability_bundle :
    Tables
    → Authority Datetime
    → (principal_id tenant_id : Uuid) → Text
    → Authority CapabilityBundle
unfolding fetch_principal fetch_tenant fetch_membership fetch_grant
load_capability_bundle tables clock principal_id tenant_id capability = do
  now ← clock
  principal ← fetch_principal tables principal_id
  tenant ← fetch_tenant tables tenant_id
  membership ← fetch_membership tables principal_id tenant_id
  grant ← fetch_grant tables principal_id tenant_id capability
  ok (record {
    principal = principal;
    tenant = tenant;
    membership = membership;
    grant = grant;
    evaluated_at = now;
  })
