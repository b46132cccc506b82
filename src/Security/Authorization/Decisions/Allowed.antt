-- ===== src/Security/Authorization/Decisions/Allowed.antt =====
-- A principal that the kernel allows has its authority in the tables, and one that has it is allowed.
use mathlib.Core.Path.{subst}
use eduvijna_aieos_backend.Prelude.{
  ◌≡◌, refl, sym, true, false, Option, List, ok, ◌>>=◌, first_returned, ok-injective, Bool-cases,
  inl, inr,
}
use eduvijna_aieos_backend.Python.Text.{Text, text_mem}
use eduvijna_aieos_backend.Python.Scalars.{Uuid, Datetime}
use eduvijna_aieos_backend.Security.Authorization.{
  Authority, AuthorityDecision, allow, deny, PrincipalAuthorityRow, TenantAuthorityRow,
  MembershipAuthorityRow, Tables,
}
use eduvijna_aieos_backend.Security.Authorization.Reads.{
  fetch_principal, fetch_tenant, fetch_membership, fetch_grant, load_capability_bundle,
  load_tenant_access_bundle,
}
use eduvijna_aieos_backend.Security.Authorization.Decisions.{
  principal_passes, tenant_passes, membership_passes, capability_contains_wildcard,
  capability_of_bundle, decide_capability, decide_tenant_access,
}
use eduvijna_aieos_backend.Security.Authorization.Decisions.Grounds.{
  IsAuthorized, principal-ground, tenant-ground, membership-ground, grant-ground, guards-all,
}

deny-ne-allow : ◌≡◌ {A = Authority AuthorityDecision} (ok deny) (ok allow) → ⊥
deny-ne-allow h = cc

loaded-IsAuthorized :
    (known : List Text) (tables : Tables) (now : Datetime) (p t : Uuid) (c : Text)
    → capability_contains_wildcard c ≡ false
    → text_mem c known ≡ true
    → (load_capability_bundle tables (ok now) p t c >>= λ bundle.
        ok (capability_of_bundle bundle c))
      ≡ ok allow
    → IsAuthorized known tables now p t c
unfolding load_capability_bundle fetch_principal fetch_tenant fetch_membership fetch_grant
loaded-IsAuthorized known tables now p t c w k h =
    let b = first_returned (load_capability_bundle tables (ok now) p t c) _ h in
    let p1 = first_returned (fetch_principal tables p) _ b.1 in
    let t1 = first_returned (fetch_tenant tables t) _ p1.2 in
    let m1 = first_returned (fetch_membership tables p t) _ t1.2 in
    let g1 = first_returned (fetch_grant tables p t c) _ m1.2 in
    let decided = guards-all _ _ _ _ _ (
      subst (λ b. capability_of_bundle b c ≡ allow) (sym (ok-injective _ _ g1.2))
        (ok-injective _ _ b.2)) in
    record {
      no_wildcard = w;
      is_known = k;
      has_principal = principal-ground tables p _ p1.0 refl p1.1 decided.0;
      has_tenant = tenant-ground tables t _ t1.0 refl t1.1 decided.1.0;
      has_membership = membership-ground tables now p t _ m1.0 refl m1.1 decided.1.1.0;
      has_grant = grant-ground tables now p t c _ g1.0 refl g1.1 decided.1.1.1.0;
    }

-- A principal that the kernel allows a capability at an instant is ACTIVE in the tables, its tenant is
-- ACTIVE, and its membership and a grant of exactly that capability are ACTIVE, not revoked and not
-- expired at that instant. The capability is in the catalog and has no wildcard.
pub decide_capability-IsAuthorized :
    (known : List Text) (tables : Tables) (now : Datetime) (principal_id tenant_id : Uuid)
    (capability : Text)
    → decide_capability known tables (ok now) principal_id tenant_id capability ≡ ok allow
    → IsAuthorized known tables now principal_id tenant_id capability
unfolding decide_capability
decide_capability-IsAuthorized known tables now p t c h =
    elim (Bool-cases (capability_contains_wildcard c)) [
      | inl w ↦ absurd (deny-ne-allow (rw w at h))
      | inr w ↦ elim (Bool-cases (text_mem c known)) [
        | inl k ↦ loaded-IsAuthorized known tables now p t c w k (simp (w, k) at h)
        | inr k ↦ absurd (deny-ne-allow (simp (w, k) at h))
      ]
    ]

read-tenant_access :
    (tables : Tables) (clock : Authority Datetime) (p t : Uuid) (now : Datetime)
    (principal : Option PrincipalAuthorityRow) (tenant : Option TenantAuthorityRow)
    (membership : Option MembershipAuthorityRow)
    → clock ≡ ok now
    → fetch_principal tables p ≡ ok principal
    → fetch_tenant tables t ≡ ok tenant
    → fetch_membership tables p t ≡ ok membership
    → principal_passes principal ≡ true
    → tenant_passes tenant ≡ true
    → membership_passes membership now ≡ true
    → decide_tenant_access tables clock p t ≡ ok allow
unfolding load_tenant_access_bundle decide_tenant_access
read-tenant_access tables clock p t now principal tenant membership c h k l a b d =
    simp (c, h, k, l, a, b, d)

loaded-tenant_access :
    (tables : Tables) (clock : Authority Datetime) (p t : Uuid) (c : Text)
    → (load_capability_bundle tables clock p t c >>= λ bundle. ok (capability_of_bundle bundle c))
      ≡ ok allow
    → decide_tenant_access tables clock p t ≡ ok allow
unfolding load_capability_bundle
loaded-tenant_access tables clock p t c h =
    let b = first_returned (load_capability_bundle tables clock p t c) _ h in
    let n1 = first_returned clock _ b.1 in
    let p1 = first_returned (fetch_principal tables p) _ n1.2 in
    let t1 = first_returned (fetch_tenant tables t) _ p1.2 in
    let m1 = first_returned (fetch_membership tables p t) _ t1.2 in
    let g1 = first_returned (fetch_grant tables p t c) _ m1.2 in
    let decided = guards-all _ _ _ _ _ (
      subst (λ b. capability_of_bundle b c ≡ allow) (sym (ok-injective _ _ g1.2))
        (ok-injective _ _ b.2)) in
    read-tenant_access tables clock p t n1.0 p1.0 t1.0 m1.0 n1.1 p1.1 t1.1 m1.1 decided.0
      decided.1.0 decided.1.1.0

-- A principal that the kernel allows a capability is, with the same tables and clock, allowed the
-- access to the tenant.
pub decide_capability-decide_tenant_access :
    (known : List Text) (tables : Tables) (clock : Authority Datetime)
    (principal_id tenant_id : Uuid) (capability : Text)
    → decide_capability known tables clock principal_id tenant_id capability ≡ ok allow
    → decide_tenant_access tables clock principal_id tenant_id ≡ ok allow
unfolding decide_capability
decide_capability-decide_tenant_access known tables clock p t c h =
    elim (Bool-cases (capability_contains_wildcard c)) [
      | inl w ↦ absurd (deny-ne-allow (rw w at h))
      | inr w ↦ elim (Bool-cases (text_mem c known)) [
        | inl k ↦ loaded-tenant_access tables clock p t c (simp (w, k) at h)
        | inr k ↦ absurd (deny-ne-allow (simp (w, k) at h))
      ]
    ]
