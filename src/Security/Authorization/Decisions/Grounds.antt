-- ===== src/Security/Authorization/Decisions/Grounds.antt =====
-- What a decision rests on: the rows of the tables of which it is a function.
use mathlib.Core.Path.{subst}
use eduvijna_aieos_backend.Prelude.{
  ◌≡◌, refl, sym, Bool, true, false, not, ◌&&◌, Option, none, some, List, ◌==◌, ==_iff, ◌<◌, arith,
  ok, if◌then◌else◌, first, In, first-In, Ensures, Ensures-if, Ensures-ok, first_returned,
  ok-injective,
}
use eduvijna_aieos_backend.Python.Text.{Text, codes, text_eq, text_mem, eq_of_text_eq}
use eduvijna_aieos_backend.Python.Scalars.{Uuid, Datetime}
use eduvijna_aieos_backend.Security.Authorization.{
  allow, deny, PrincipalRow, PrincipalAuthorityRow, TenantRow, TenantAuthorityRow, MembershipRow,
  MembershipAuthorityRow, GrantRow, GrantAuthorityRow, Tables, coerce_principal_status,
  coerce_tenant_status, coerce_membership_status, coerce_grant_status, coerce_principal_kind,
}
use eduvijna_aieos_backend.Security.Authorization.Reads.{
  principal_of_row, tenant_of_row, membership_of_row, grant_of_row, is_membership_of, is_grant_of,
}
use eduvijna_aieos_backend.Security.Authorization.Decisions.{
  is_active_principal, is_active_tenant, is_active_membership, is_active_grant, is_present,
  is_expired, membership_is_currently_valid, grant_is_currently_valid, capability_contains_wildcard,
  principal_passes, tenant_passes, membership_passes, grant_passes,
}

-- An optional end that has not come.
abbrev pub Unexpired : Option Datetime → Datetime → Type 0
Unexpired none now = Unit
Unexpired (some t) now = now.instant < t.instant

pub record HasPrincipal (tables : Tables) (principal_id : Uuid) : Type 0 where
  pub row : PrincipalRow
  pub stored : In row tables.principals
  pub same_id : row.principal_id ≡ principal_id
  pub is_active : row.status ≡ codes "ACTIVE"

pub record HasTenant (tables : Tables) (tenant_id : Uuid) : Type 0 where
  pub row : TenantRow
  pub stored : In row tables.tenants
  pub same_id : row.tenant_id ≡ tenant_id
  pub is_active : row.status ≡ codes "ACTIVE"

pub record HasMembership (tables : Tables) (now : Datetime) (principal_id tenant_id : Uuid)
    : Type 0 where
  pub row : MembershipRow
  pub stored : In row tables.tenant_memberships
  pub same_tenant : row.tenant_id ≡ tenant_id
  pub same_principal : row.principal_id ≡ principal_id
  pub is_active : row.status ≡ codes "ACTIVE"
  pub not_revoked : row.revoked_at ≡ none
  pub unexpired : Unexpired row.expires_at now

pub record HasGrant (tables : Tables) (now : Datetime) (principal_id tenant_id : Uuid)
    (capability : Text) : Type 0 where
  pub row : GrantRow
  pub stored : In row tables.capability_grants
  pub same_tenant : row.tenant_id ≡ tenant_id
  pub same_principal : row.principal_id ≡ principal_id
  pub same_capability : row.capability ≡ capability
  pub is_active : row.status ≡ codes "ACTIVE"
  pub not_revoked : row.revoked_at ≡ none
  pub unexpired : Unexpired row.expires_at now

pub record IsAuthorized (known : List Text) (tables : Tables) (now : Datetime)
    (principal_id tenant_id : Uuid) (capability : Text) : Type 0 where
  pub no_wildcard : capability_contains_wildcard capability ≡ false
  pub is_known : text_mem capability known ≡ true
  pub has_principal : HasPrincipal tables principal_id
  pub has_tenant : HasTenant tables tenant_id
  pub has_membership : HasMembership tables now principal_id tenant_id
  pub has_grant : HasGrant tables now principal_id tenant_id capability

principal_status-active :
    (t : Text)
    → Ensures (λ s. is_active_principal s ≡ true → t ≡ codes "ACTIVE") (coerce_principal_status t)
unfolding coerce_principal_status
principal_status-active t =
    Ensures-if _ (text_eq t (codes "ACTIVE")) _ _ (λ e a. eq_of_text_eq t _ e)
      λ _.
        Ensures-if _ (text_eq t (codes "SUSPENDED")) _ _ (λ _ a. cc)
          λ _. Ensures-if _ (text_eq t (codes "DISABLED")) _ _ (λ _ a. cc) λ _. tt

tenant_status-active :
    (t : Text)
    → Ensures (λ s. is_active_tenant s ≡ true → t ≡ codes "ACTIVE") (coerce_tenant_status t)
unfolding coerce_tenant_status
tenant_status-active t =
    Ensures-if _ (text_eq t (codes "ACTIVE")) _ _ (λ e a. eq_of_text_eq t _ e)
      λ _.
        Ensures-if _ (text_eq t (codes "SUSPENDED")) _ _ (λ _ a. cc)
          λ _. Ensures-if _ (text_eq t (codes "DISABLED")) _ _ (λ _ a. cc) λ _. tt

membership_status-active :
    (t : Text)
    → Ensures (λ s. is_active_membership s ≡ true → t ≡ codes "ACTIVE") (coerce_membership_status t)
unfolding coerce_membership_status
membership_status-active t =
    Ensures-if _ (text_eq t (codes "ACTIVE")) _ _ (λ e a. eq_of_text_eq t _ e)
      λ _.
        Ensures-if _ (text_eq t (codes "SUSPENDED")) _ _ (λ _ a. cc)
          λ _. Ensures-if _ (text_eq t (codes "REVOKED")) _ _ (λ _ a. cc) λ _. tt

grant_status-active :
    (t : Text)
    → Ensures (λ s. is_active_grant s ≡ true → t ≡ codes "ACTIVE") (coerce_grant_status t)
unfolding coerce_grant_status
grant_status-active t =
    Ensures-if _ (text_eq t (codes "ACTIVE")) _ _ (λ e a. eq_of_text_eq t _ e)
      λ _. Ensures-if _ (text_eq t (codes "REVOKED")) _ _ (λ _ a. cc) λ _. tt

Unexpired-of_is_expired :
    (e : Option Datetime) (now : Datetime) → is_expired e now ≡ false → Unexpired e now
Unexpired-of_is_expired none now h = tt
Unexpired-of_is_expired (some t) now h = ground arith

not_present : (o : Option Datetime) → is_present o ≡ false → o ≡ none
not_present none h = refl
not_present (some t) h = cc

-- The three tests of a validity, as the code chains them.
chain-all :
    (a r e : Bool)
    → (if not a then false else if r then false else if e then false else true) ≡ true
    → (a ≡ true) × ((r ≡ false) × (e ≡ false))
chain-all true false false h = (refl, (refl, refl))
chain-all true false true h = cc
chain-all true true e h = cc
chain-all false r e h = cc

pub principal-ground :
    (tables : Tables) (p : Uuid) (found : Option PrincipalRow) (row : Option PrincipalAuthorityRow)
    → first (λ row. row.principal_id == p) tables.principals ≡ found
    → principal_of_row found ≡ ok row
    → principal_passes row ≡ true
    → HasPrincipal tables p
principal-ground tables p none row f h a = absurd (passes-none a (ok-injective _ _ h))
  where
    passes-none : principal_passes row ≡ true → none ≡ row → ⊥
    passes-none a e = cc
principal-ground tables p (some r) row f h a =
    let s = first_returned (coerce_principal_status r.status) _ h in
    let k = first_returned (coerce_principal_kind r.principal_kind) _ s.2 in
    let found = first-In _ tables.principals r f in
    record {
      row = r;
      stored = found.0;
      same_id = (==_iff r.principal_id p).0 found.1;
      is_active =
          Ensures-ok _ _ s.0 (principal_status-active r.status) s.1
            (subst (λ o. principal_passes o ≡ true) (sym (ok-injective _ _ k.2)) a);
    }

pub tenant-ground :
    (tables : Tables) (t : Uuid) (found : Option TenantRow) (row : Option TenantAuthorityRow)
    → first (λ row. row.tenant_id == t) tables.tenants ≡ found
    → tenant_of_row found ≡ ok row
    → tenant_passes row ≡ true
    → HasTenant tables t
tenant-ground tables t none row f h a = absurd (passes-none a (ok-injective _ _ h))
  where
    passes-none : tenant_passes row ≡ true → none ≡ row → ⊥
    passes-none a e = cc
tenant-ground tables t (some r) row f h a =
    let s = first_returned (coerce_tenant_status r.status) _ h in
    let found = first-In _ tables.tenants r f in
    record {
      row = r;
      stored = found.0;
      same_id = (==_iff r.tenant_id t).0 found.1;
      is_active =
          Ensures-ok _ _ s.0 (tenant_status-active r.status) s.1
            (subst (λ o. tenant_passes o ≡ true) (sym (ok-injective _ _ s.2)) a);
    }

and-both : (a b : Bool) → (a && b) ≡ true → (a ≡ true) × (b ≡ true)
and-both true b h = (refl, h)
and-both false b h = cc

pub membership-ground :
    (tables : Tables) (now : Datetime) (p t : Uuid) (found : Option MembershipRow)
    (row : Option MembershipAuthorityRow)
    → first (is_membership_of t p) tables.tenant_memberships ≡ found
    → membership_of_row found ≡ ok row
    → membership_passes row now ≡ true
    → HasMembership tables now p t
unfolding membership_is_currently_valid
membership-ground tables now p t none row f h a = absurd (passes-none a (ok-injective _ _ h))
  where
    passes-none : membership_passes row now ≡ true → none ≡ row → ⊥
    passes-none a e = cc
membership-ground tables now p t (some r) row f h a =
    let s = first_returned (coerce_membership_status r.status) _ h in
    let found = first-In _ tables.tenant_memberships r f in
    let key = and-both _ _ found.1 in
    let tests =
      chain-all _ _ _
        (subst (λ o. membership_passes o now ≡ true) (sym (ok-injective _ _ s.2)) a) in
    record {
      row = r;
      stored = found.0;
      same_tenant = (==_iff r.tenant_id t).0 key.0;
      same_principal = (==_iff r.principal_id p).0 key.1;
      is_active = Ensures-ok _ _ s.0 (membership_status-active r.status) s.1 tests.0;
      not_revoked = not_present r.revoked_at tests.1.0;
      unexpired = Unexpired-of_is_expired r.expires_at now tests.1.1;
    }

pub grant-ground :
    (tables : Tables) (now : Datetime) (p t : Uuid) (c : Text) (found : Option GrantRow)
    (row : Option GrantAuthorityRow)
    → first (is_grant_of t p c) tables.capability_grants ≡ found
    → grant_of_row found ≡ ok row
    → grant_passes row now ≡ true
    → HasGrant tables now p t c
unfolding grant_is_currently_valid
grant-ground tables now p t c none row f h a = absurd (passes-none a (ok-injective _ _ h))
  where
    passes-none : grant_passes row now ≡ true → none ≡ row → ⊥
    passes-none a e = cc
grant-ground tables now p t c (some r) row f h a =
    let s = first_returned (coerce_grant_status r.status) _ h in
    let found = first-In _ tables.capability_grants r f in
    let key = and-both _ _ found.1 in
    let ids = and-both _ _ key.0 in
    let tests =
      chain-all _ _ _ (subst (λ o. grant_passes o now ≡ true) (sym (ok-injective _ _ s.2)) a) in
    record {
      row = r;
      stored = found.0;
      same_tenant = (==_iff r.tenant_id t).0 ids.0;
      same_principal = (==_iff r.principal_id p).0 ids.1;
      same_capability = eq_of_text_eq r.capability c key.1;
      is_active = Ensures-ok _ _ s.0 (grant_status-active r.status) s.1 tests.0;
      not_revoked = not_present r.revoked_at tests.1.0;
      unexpired = Unexpired-of_is_expired r.expires_at now tests.1.1;
    }

-- The guards of a decision, as the code chains them.
pub guards-all :
    (p t m g x : Bool)
    → (if not p
        then deny
        else if not t
        then deny
        else if not m
        then deny
        else if not g
        then deny
        else if not x
        then deny
        else allow)
      ≡ allow
    → (p ≡ true) × ((t ≡ true) × ((m ≡ true) × ((g ≡ true) × (x ≡ true))))
guards-all true true true true true h = (refl, (refl, (refl, (refl, refl))))
guards-all true true true true false h = cc
guards-all true true true false x h = cc
guards-all true true false g x h = cc
guards-all true false m g x h = cc
guards-all false t m g x h = cc
