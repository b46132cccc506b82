-- ===== src/Security/Authorization/Decisions.antt =====
-- kernel.py and principal_classification.py: the decisions, each a chain of early returns. A kernel is
-- its catalog of known capabilities.
pub mod Grounds
pub mod Allowed
use eduvijna_aieos_backend.Prelude.{
  Bool, true, false, not, ◌&&◌, ◌||◌, Option, none, some, List, [], ◌∷◌, leb, ◌==◌, ok, err, ◌>>=◌,
  if◌then◌else◌,
}
use eduvijna_aieos_backend.Python.Text.{Text, text_eq, text_mem}
use eduvijna_aieos_backend.Python.Scalars.{Uuid, Datetime}
use eduvijna_aieos_backend.Security.Authorization.{
  Authority, authorization_unavailable, unauthorized, AuthorityDecision, allow, deny,
  PrincipalStatus, PrincipalKind, human, workload, TenantStatus, MembershipStatus, GrantStatus,
  PrincipalAuthorityRow, TenantAuthorityRow, MembershipAuthorityRow, GrantAuthorityRow, Tables,
}
use eduvijna_aieos_backend.Security.Authorization.Reads.{
  TenantAccessBundle, CapabilityBundle, load_tenant_access_bundle, load_capability_bundle,
  fetch_principal,
}

abbrev pub is_active_principal : PrincipalStatus → Bool
is_active_principal PrincipalStatus.active = true
is_active_principal _ = false

abbrev pub is_active_tenant : TenantStatus → Bool
is_active_tenant TenantStatus.active = true
is_active_tenant _ = false

abbrev pub is_active_membership : MembershipStatus → Bool
is_active_membership MembershipStatus.active = true
is_active_membership _ = false

abbrev pub is_active_grant : GrantStatus → Bool
is_active_grant GrantStatus.active = true
is_active_grant _ = false

abbrev pub is_present : Option Datetime → Bool
is_present none = false
is_present (some t) = true

-- `expires_at is not None and expires_at <= now`
abbrev pub is_expired : Option Datetime → Datetime → Bool
is_expired none now = false
is_expired (some t) now = leb t.instant now.instant

unfoldable pub membership_is_currently_valid : MembershipAuthorityRow → Datetime → Bool
membership_is_currently_valid m now =
    if not (is_active_membership m.status)
    then false
    else if is_present m.revoked_at
    then false
    else if is_expired m.expires_at now
    then false
    else true

unfoldable pub grant_is_currently_valid : GrantAuthorityRow → Datetime → Bool
grant_is_currently_valid g now =
    if not (is_active_grant g.status)
    then false
    else if is_present g.revoked_at
    then false
    else if is_expired g.expires_at now
    then false
    else true

-- `"*" in capability`
unfoldable pub capability_contains_wildcard : Text → Bool
capability_contains_wildcard [] = false
capability_contains_wildcard (c ∷ s) = c == b'*' || capability_contains_wildcard s

-- The error is a `ValueError`.
unfoldable pub validate_known_capabilities : List Text → Option (List Text)
unfolding capability_contains_wildcard
validate_known_capabilities [] = some []
validate_known_capabilities (c ∷ cs) =
    let rest = validate_known_capabilities cs in
    if capability_contains_wildcard c then none else catalog_with c rest
  where
    catalog_with : Text → Option (List Text) → Option (List Text)
    catalog_with c none = none
    catalog_with c (some cs) = some (c ∷ cs)

abbrev pub principal_passes : Option PrincipalAuthorityRow → Bool
principal_passes none = false
principal_passes (some p) = is_active_principal p.status

abbrev pub tenant_passes : Option TenantAuthorityRow → Bool
tenant_passes none = false
tenant_passes (some t) = is_active_tenant t.status

abbrev pub membership_passes : Option MembershipAuthorityRow → Datetime → Bool
membership_passes none now = false
membership_passes (some m) now = membership_is_currently_valid m now

abbrev pub grant_passes : Option GrantAuthorityRow → Datetime → Bool
grant_passes none now = false
grant_passes (some g) now = grant_is_currently_valid g now

-- The two tests on the capability of the grant.
abbrev pub grant_is_exact : Option GrantAuthorityRow → Text → Bool
grant_is_exact none capability = false
grant_is_exact (some g) capability =
    if not (text_eq g.capability capability)
    then false
    else not (capability_contains_wildcard g.capability)

abbrev pub tenant_access_of_bundle : TenantAccessBundle → AuthorityDecision
tenant_access_of_bundle b =
    if not (principal_passes b.principal)
    then deny
    else if not (tenant_passes b.tenant)
    then deny
    else if not (membership_passes b.membership b.evaluated_at)
    then deny
    else allow

unfoldable pub decide_tenant_access :
    Tables → Authority Datetime → (principal_id tenant_id : Uuid) → Authority AuthorityDecision
unfolding load_tenant_access_bundle membership_is_currently_valid
decide_tenant_access tables clock principal_id tenant_id = do
  bundle ← load_tenant_access_bundle tables clock principal_id tenant_id
  ok (tenant_access_of_bundle bundle)

abbrev pub capability_of_bundle : CapabilityBundle → Text → AuthorityDecision
capability_of_bundle b capability =
    if not (principal_passes b.principal)
    then deny
    else if not (tenant_passes b.tenant)
    then deny
    else if not (membership_passes b.membership b.evaluated_at)
    then deny
    else if not (grant_passes b.grant b.evaluated_at)
    then deny
    else if not (grant_is_exact b.grant capability)
    then deny
    else allow

unfoldable pub decide_capability :
    (known : List Text)
    → Tables
    → Authority Datetime
    → (principal_id tenant_id : Uuid) → Text
    → Authority AuthorityDecision
unfolding load_capability_bundle membership_is_currently_valid grant_is_currently_valid
    capability_contains_wildcard
decide_capability known tables clock principal_id tenant_id capability =
    if capability_contains_wildcard capability
    then ok deny
    else if not (text_mem capability known)
    then ok deny
    else (do
      bundle ← load_capability_bundle tables clock principal_id tenant_id capability
      ok (capability_of_bundle bundle capability))

abbrev kind_of_principal : Option PrincipalAuthorityRow → Authority PrincipalKind
kind_of_principal none = err unauthorized
kind_of_principal (some p) =
    if not (is_active_principal p.status) then err unauthorized else present p.principal_kind
  where
    present : Option PrincipalKind → Authority PrincipalKind
    present none = err unauthorized
    present (some kind) = ok kind

-- The clock stands for the connection, which `load_principal` opens too.
unfoldable pub resolve_current_principal_kind :
    Tables → Authority Datetime → Uuid → Authority PrincipalKind
unfolding fetch_principal
resolve_current_principal_kind tables clock principal_id = do
  now ← clock
  principal ← fetch_principal tables principal_id
  kind_of_principal principal

abbrev human_only : PrincipalKind → Authority PrincipalKind
human_only human = ok human
human_only workload = err unauthorized

unfoldable pub require_current_human_principal :
    Tables → Authority Datetime → Uuid → Authority PrincipalKind
unfolding resolve_current_principal_kind
require_current_human_principal tables clock principal_id = do
  kind ← resolve_current_principal_kind tables clock principal_id
  human_only kind

abbrev workload_only : PrincipalKind → Authority PrincipalKind
workload_only human = err unauthorized
workload_only workload = ok workload

unfoldable pub require_current_workload_principal :
    Tables → Authority Datetime → Uuid → Authority PrincipalKind
unfolding resolve_current_principal_kind
require_current_workload_principal tables clock principal_id = do
  kind ← resolve_current_principal_kind tables clock principal_id
  workload_only kind
