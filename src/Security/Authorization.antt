-- ===== src/Security/Authorization.antt =====
-- authorization/repository.py, decisions.py, kernel.py and principal_classification.py: the tables of
-- current authority, the reads that materialize a row of them, and the decisions of the kernel. A row
-- holds its status as the text of the column. A read that fails in the database is a clock that is
-- unavailable here, since the clock is the first thing that a read of a bundle takes.
pub mod Reads
pub mod Decisions
use eduvijna_aieos_backend.Prelude.{
  Bool, true, false, not, ◌&&◌, ◌||◌, Option, none, some, List, [], ◌∷◌, leb, ◌==◌, Result, ok, err,
  ◌>>=◌, if◌then◌else◌, first,
}
use eduvijna_aieos_backend.Python.Text.{Text, codes, text_eq, text_mem}
use eduvijna_aieos_backend.Python.Scalars.{Uuid, Datetime}

-- `AuthorizationUnavailableError` and `UnauthorizedError`
pub data AuthorityError : Type 0 where
  authorization_unavailable unauthorized : AuthorityError

abbrev pub Authority {ℓ} : Type ℓ → Type ℓ
Authority A = Result AuthorityError A

pub data AuthorityDecision : Type 0 where
  allow deny : AuthorityDecision

pub data PrincipalStatus : Type 0 where
  active suspended disabled : PrincipalStatus

pub data PrincipalKind : Type 0 where
  human workload : PrincipalKind

pub data TenantStatus : Type 0 where
  active suspended disabled : TenantStatus

pub data MembershipStatus : Type 0 where
  active suspended revoked : MembershipStatus

pub data GrantStatus : Type 0 where
  active revoked : GrantStatus

-- `coerce_authority_status` at each vocabulary.
unfoldable pub coerce_principal_status : Text → Authority PrincipalStatus
coerce_principal_status t =
    if text_eq t (codes "ACTIVE")
    then ok PrincipalStatus.active
    else if text_eq t (codes "SUSPENDED")
    then ok PrincipalStatus.suspended
    else if text_eq t (codes "DISABLED")
    then ok PrincipalStatus.disabled
    else err authorization_unavailable

unfoldable pub coerce_tenant_status : Text → Authority TenantStatus
coerce_tenant_status t =
    if text_eq t (codes "ACTIVE")
    then ok TenantStatus.active
    else if text_eq t (codes "SUSPENDED")
    then ok TenantStatus.suspended
    else if text_eq t (codes "DISABLED")
    then ok TenantStatus.disabled
    else err authorization_unavailable

unfoldable pub coerce_membership_status : Text → Authority MembershipStatus
coerce_membership_status t =
    if text_eq t (codes "ACTIVE")
    then ok MembershipStatus.active
    else if text_eq t (codes "SUSPENDED")
    then ok MembershipStatus.suspended
    else if text_eq t (codes "REVOKED")
    then ok MembershipStatus.revoked
    else err authorization_unavailable

unfoldable pub coerce_grant_status : Text → Authority GrantStatus
coerce_grant_status t =
    if text_eq t (codes "ACTIVE")
    then ok GrantStatus.active
    else if text_eq t (codes "REVOKED")
    then ok GrantStatus.revoked
    else err authorization_unavailable

unfoldable pub coerce_principal_kind : Option Text → Authority (Option PrincipalKind)
coerce_principal_kind none = ok none
coerce_principal_kind (some t) =
    if text_eq t (codes "HUMAN")
    then ok (some human)
    else if text_eq t (codes "WORKLOAD")
    then ok (some workload)
    else err authorization_unavailable

-- A row of `principals`, with what its columns hold, and the row that is materialized from it. The
-- other tables follow.
pub record PrincipalRow : Type 0 where
  pub principal_id : Uuid
  pub status : Text
  pub principal_kind : Option Text

pub record PrincipalAuthorityRow : Type 0 where
  pub principal_id : Uuid
  pub status : PrincipalStatus
  pub principal_kind : Option PrincipalKind

pub record TenantRow : Type 0 where
  pub tenant_id : Uuid
  pub status : Text

pub record TenantAuthorityRow : Type 0 where
  pub tenant_id : Uuid
  pub status : TenantStatus

pub record MembershipRow : Type 0 where
  pub tenant_id : Uuid
  pub principal_id : Uuid
  pub status : Text
  pub expires_at : Option Datetime
  pub revoked_at : Option Datetime

pub record MembershipAuthorityRow : Type 0 where
  pub tenant_id : Uuid
  pub principal_id : Uuid
  pub status : MembershipStatus
  pub expires_at : Option Datetime
  pub revoked_at : Option Datetime

pub record GrantRow : Type 0 where
  pub tenant_id : Uuid
  pub principal_id : Uuid
  pub capability : Text
  pub status : Text
  pub expires_at : Option Datetime
  pub revoked_at : Option Datetime

pub record GrantAuthorityRow : Type 0 where
  pub tenant_id : Uuid
  pub principal_id : Uuid
  pub capability : Text
  pub status : GrantStatus
  pub expires_at : Option Datetime
  pub revoked_at : Option Datetime

-- The schema `security`.
pub record Tables : Type 0 where
  pub principals : List PrincipalRow
  pub tenants : List TenantRow
  pub tenant_memberships : List MembershipRow
  pub capability_grants : List GrantRow
