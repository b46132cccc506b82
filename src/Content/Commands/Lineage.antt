-- ===== src/Content/Commands/Lineage.antt =====
-- The versions of a content: an append puts the version behind the current one, so that the history is
-- linear.
use mathlib.Core.Path.{subst}
use eduvijna_aieos_backend.Prelude.{
  ℕ, ◌+◌, ◌≡◌, refl, sym, true, ◌&&◌, not, Result, Option, none, some, List, ◌∷◌, ◌==◌, ==_iff, inr,
  ok, err, guard, first, first-In, In, All, All-impl, Ensures, Ensures-guard, Ensures-ok,
}
use eduvijna_aieos_backend.Python.Text.{Text}
use eduvijna_aieos_backend.Python.Scalars.{Uuid, Datetime}
use eduvijna_aieos_backend.Content.Vocabulary.{
  ContentResult, version_lineage_conflict, content_not_found, version_already_exists,
}
use eduvijna_aieos_backend.Content.Version.{Content, ContentVersion, is_same_id}
use eduvijna_aieos_backend.Content.Database.{
  Database, LockedContentHead, any, is_content, is_version, get_head_for_update, locked_row,
  locked_head, numbered_head,
}
use eduvijna_aieos_backend.Content.Database.Rows.{
  is_same_version, insert_version, insert_message, inserted, advance_current_version,
}
use eduvijna_aieos_backend.Content.Database.Soundness.{and-both, same_id-some}
use eduvijna_aieos_backend.Events.ContentEvents.{
  MutationEventContext, Message, version_created_outbox,
}
use eduvijna_aieos_backend.Events.Outbox.{OutboxError, insert}
use eduvijna_aieos_backend.Content.Commands.{require_head, require_resulting, found_head}
use eduvijna_aieos_backend.Content.Commands.Append.{
  append_version_in_uow, allows_append, assert_linear_append, is_linear, follows_number,
}
use eduvijna_aieos_backend.Content.Commands.Soundness.{after, keeps}

-- The version that a version follows is stored, is of the same content, and has the number before.
pub record Follows (versions : List ContentVersion) (v : ContentVersion) (parent_id : Uuid)
    : Type 0 where
  pub parent : ContentVersion
  pub stored : In parent versions
  pub same_id : parent.version_id ≡ parent_id
  pub same_content : parent.content_id ≡ v.content_id
  pub next_number : v.version_number ≡ parent.version_number + 1

abbrev pub HasParent : List ContentVersion → ContentVersion → Option Uuid → Type 0
HasParent versions v none = v.version_number ≡ 1
HasParent versions v (some parent_id) = Follows versions v parent_id

-- Each version is the first of its content or follows another one.
abbrev pub AreLinear : List ContentVersion → Type 0
AreLinear versions = All (λ v. HasParent versions v v.parent_version_id) versions

-- The number of a locked head is that of the current version.
abbrev NumberFits : List ContentVersion → Uuid → Option Uuid → Option ℕ → Type 0
NumberFits versions content none number = Unit
NumberFits versions content (some current) number =
    (p : ContentVersion) × In p versions
    × (p.version_id ≡ current)
    × (p.content_id ≡ content)
    × (number ≡ some p.version_number)

abbrev HeadFits : List ContentVersion → Uuid → LockedContentHead → Type 0
HeadFits versions content head =
    NumberFits versions content head.current_version_id head.current_version_number

abbrev OptionHeadFits : List ContentVersion → Uuid → Option LockedContentHead → Type 0
OptionHeadFits versions content none = Unit
OptionHeadFits versions content (some head) = HeadFits versions content head

numbered_head-Fits :
    (c : Content) (current : Uuid) (versions : List ContentVersion) (found : Option ContentVersion)
    → c.current_version_id ≡ some current
    → first (λ v. is_version c.tenant_id current v && v.content_id == c.content_id) versions ≡ found
    → Ensures (OptionHeadFits versions c.content_id) (numbered_head c found)
numbered_head-Fits c current versions none e h = tt
numbered_head-Fits c current versions (some p) e h =
    let i = first-In _ versions p h in
    let keys = and-both _ _ i.1 in
    subst (λ o. NumberFits versions c.content_id o (some p.version_number)) (sym e)
      (
        p,
        i.0,
        (==_iff p.version_id current).0 (and-both _ _ keys.0).0,
        (==_iff p.content_id c.content_id).0 keys.1,
        refl,
      )

locked_head-Fits :
    (c : Content) (current : Option Uuid) (versions : List ContentVersion)
    → c.current_version_id ≡ current
    → Ensures (OptionHeadFits versions c.content_id) (locked_head c current versions)
locked_head-Fits c none versions e = subst (λ o. NumberFits versions c.content_id o none) (sym e) tt
locked_head-Fits c (some current) versions e = numbered_head-Fits c current versions _ e refl

locked_row-Fits :
    (tenant content : Uuid) (d : Database) (found : Option Content)
    → first (is_content tenant content) d.contents ≡ found
    → Ensures (OptionHeadFits d.versions content) (locked_row found d.versions)
locked_row-Fits tenant content d none h = tt
locked_row-Fits tenant content d (some c) h =
    let key = and-both _ _ (first-In _ d.contents c h).1 in
    subst
      (λ u. Ensures (OptionHeadFits d.versions u) (locked_head c c.current_version_id d.versions))
      ((==_iff c.content_id content).0 key.0)
      (locked_head-Fits c c.current_version_id d.versions refl)

found_head-Fits :
    (tenant content : Uuid) (versions : List ContentVersion) (o : Option LockedContentHead)
    → OptionHeadFits versions content o
    → Ensures (HeadFits versions content) (found_head tenant o)
found_head-Fits tenant content versions none h = tt
found_head-Fits tenant content versions (some head) h =
    after _ (guard (head.tenant_id == tenant) content_not_found) _ λ u. h

require_head-Fits :
    (tenant content : Uuid) (d : Database)
    → Ensures (HeadFits d.versions content) (require_head tenant content d)
unfolding require_head get_head_for_update
require_head-Fits tenant content d =
    keeps (OptionHeadFits d.versions content) _
      (locked_row (first (is_content tenant content) d.contents) d.versions) _
      (locked_row-Fits tenant content d _ refl) λ o h. found_head-Fits tenant content d.versions o h

same_id-none : (o : Option Uuid) → is_same_id o none ≡ true → o ≡ none
same_id-none none h = refl
same_id-none (some u) h = cc

linear-HasParent :
    (versions : List ContentVersion) (current : Option Uuid) (number : Option ℕ)
    (v : ContentVersion)
    → NumberFits versions v.content_id current number
    → is_linear current number v ≡ true
    → HasParent (v ∷ versions) v v.parent_version_id
linear-HasParent versions none number v f h =
    let tests = and-both _ _ h in
    subst (HasParent (v ∷ versions) v) (sym (same_id-none v.parent_version_id tests.1))
      ((==_iff v.version_number 1).0 tests.0)
linear-HasParent versions (some current) number v f h =
    let tests = and-both _ _ h in
    subst (HasParent (v ∷ versions) v) (sym (same_id-some v.parent_version_id current tests.0))
      (record {
        parent = f.0;
        stored = inr f.1;
        same_id = f.2;
        same_content = f.3;
        next_number =
            (==_iff v.version_number _).0
              (subst (λ n. follows_number n v.version_number ≡ true) f.4 tests.1);
      })

more_versions :
    (w : ContentVersion) (versions : List ContentVersion) (v : ContentVersion)
    (parent : Option Uuid)
    → HasParent versions v parent
    → HasParent (w ∷ versions) v parent
more_versions w versions v none h = h
more_versions w versions v (some parent) h = record {
  parent = h.parent;
  stored = inr h.stored;
  same_id = h.same_id;
  same_content = h.same_content;
  next_number = h.next_number;
}

-- The versions are those before and the new one.
abbrev pub HasAppended : ContentVersion → Database → Database → Type 0
HasAppended v d e = e.versions ≡ v ∷ d.versions

insert_version-HasAppended :
    (v : ContentVersion) (d : Database) → Ensures (HasAppended v d) (insert_version v d)
unfolding insert_version
insert_version-HasAppended v d =
    after _ (guard (not (any (is_same_version v) d.versions)) version_already_exists) _ λ u. refl

require_resulting-HasAppended :
    (v : ContentVersion) (d : Database) (out : Database × Option ℕ)
    → HasAppended v d out.0
    → Ensures (λ moved. HasAppended v d moved.0) (require_resulting out)
require_resulting-HasAppended v d (e, none) h = tt
require_resulting-HasAppended v d (e, some revision) h = h

insert_message-HasAppended :
    (v : ContentVersion) (d : Database) (m : Message) (e : Database)
    → HasAppended v d e
    → Ensures (HasAppended v d) (insert_message m e)
unfolding insert_message
insert_message-HasAppended v d m e h = go (insert m e.outbox)
  where
    go : (o : Result OutboxError (List Message)) → Ensures (HasAppended v d) (inserted o e)
    go (err x) = tt
    go (ok rows) = h

-- What an append that returns has done.
abbrev AppendsLinearly : ContentVersion → Database → Database × ℕ → Type 0
AppendsLinearly v d out = HasAppended v d out.0 × HasParent (v ∷ d.versions) v v.parent_version_id

append-Ensures :
    (str_uuid : Uuid → Text) (tenant : Uuid) (expected : ℕ) (v : ContentVersion)
    (provenance : ContentResult (Unit {0})) (now : Datetime) (context : MutationEventContext)
    (event_id : Uuid) (d : Database)
    → Ensures
        (AppendsLinearly v d)
        (append_version_in_uow str_uuid tenant expected v provenance now context event_id d)
unfolding append_version_in_uow assert_linear_append advance_current_version
append-Ensures str_uuid tenant expected v provenance now context event_id d =
    after _ (guard (tenant == v.tenant_id) _) _ λ u1. after _ provenance _ λ u2.
      after _ (guard now.is_aware _) _ λ u3.
        keeps (HeadFits d.versions v.content_id) _ (require_head tenant v.content_id d) _
          (require_head-Fits tenant v.content_id d)
          λ head fits. after _ (guard (head.aggregate_revision == expected) _) _ λ u4.
            after _ (guard (allows_append head.stewardship_state) _) _ λ u5.
              Ensures-guard _ (is_linear head.current_version_id head.current_version_number v)
                version_lineage_conflict _
                λ linear.
                  keeps (HasAppended v d) _ (insert_version v d) _ (insert_version-HasAppended v d)
                    λ d1 h1.
                      keeps (λ (moved : Database × ℕ). HasAppended v d moved.0) _
                        (require_resulting (
                          advance_current_version v.content_id tenant expected
                            head.current_version_id head.stewardship_state v.version_id now d1))
                        _ (require_resulting-HasAppended v d _ h1)
                        λ moved h2.
                          keeps (HasAppended v d) _
                            (insert_message
                              (version_created_outbox str_uuid event_id tenant v.content_id
                                v.version_id v.version_number v.origin moved.1 context now)
                              moved.0)
                            _ (insert_message-HasAppended v d _ moved.0 h2)
                            λ d2 h3. (
                              h3,
                              linear-HasParent d.versions head.current_version_id
                                  head.current_version_number v fits linear,
                            )

-- An append keeps the history linear: if each version is the first of its content, with number 1 and no
-- parent, or follows a stored version of the same content whose number is one less, then so it is
-- after an append that returns, which added exactly its version.
pub append_version_in_uow-AreLinear :
    (str_uuid : Uuid → Text) (tenant : Uuid) (expected : ℕ) (v : ContentVersion)
    (provenance : ContentResult (Unit {0})) (now : Datetime) (context : MutationEventContext)
    (event_id : Uuid) (d e : Database) (revision : ℕ)
    → AreLinear d.versions
    → append_version_in_uow str_uuid tenant expected v provenance now context event_id d
      ≡ ok (e, revision)
    → AreLinear e.versions × (e.versions ≡ v ∷ d.versions)
append_version_in_uow-AreLinear str_uuid tenant expected v provenance now context event_id d e
      revision linear h =
    let done =
      Ensures-ok (AppendsLinearly v d) _ (e, revision)
        (append-Ensures str_uuid tenant expected v provenance now context event_id d) h in
    (
      subst AreLinear (sym done.0) (
        done.1,
        All-impl _ _ d.versions (λ w k. more_versions v d.versions w w.parent_version_id k) linear,
      ),
      done.0,
    )
