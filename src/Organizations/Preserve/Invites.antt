-- ===== src/Organizations/Preserve/Invites.antt =====
-- The requests about invites and groups in server/app/api/organizations.py keep the tables sound.
use corella.Prelude.{
  ℕ, ◌≤◌, ◌≡◌, refl, Bool, false, Option, none, some, find, tally, find-some, find-none,
  find-listed, arith, ◌==◌, Text,
}
use corella.Http.{
  Succeeds, Succeeds-or_raise, Succeeds-bind, Succeeds-raise_if, Succeeds-raise_if_some,
  Succeeds-ok,
}
use corella.Organizations.Model.{
  OrgRole, is_owner, User, OrganizationInvite, Db, Settings, is_membership,
}
use corella.Organizations.Service.{get_membership}
use corella.Organizations.Deps.{require_org_admin}
use corella.Organizations.Members.{has_email}
use corella.Organizations.Invites.{
  is_pending, is_invite, drop_pending, add_invite, invite_expiry, create_invite, resend_invite,
  revoke_invite, invite_by_token, accept_new, accept_existing, accept_as, mark_accepted,
  accept_invite,
}
use corella.Organizations.Counts.{orgs}
use corella.Organizations.Tables.{
  IsSound, reject-IsInvited, pending-drop, new-IsInvited, relink-IsInvited, accept-IsInvited,
  later-IsRegistered, old_account,
}
use corella.Organizations.Preserve.Asking.{Asked, require_org_admin-Asked}
use corella.Organizations.Preserve.Accounts.{Sound, Keeps}
use corella.Organizations.Preserve.Members.{here-orgs, add_membership-IsSound, join_new-IsSound}

drop_pending-IsSound :
    (o : Option OrganizationInvite) (db : Db) → IsSound db → IsSound (drop_pending o db)
drop_pending-IsSound none db v = v
drop_pending-IsSound (some i) db v = record {
  ownership = v.ownership;
  registered = v.registered;
  invited = reject-IsInvited (is_invite i.id) db.invites db.organizations v.invited;
}

organizations-drop_pending :
    (o : Option OrganizationInvite) (db : Db) → (drop_pending o db).organizations ≡ db.organizations
organizations-drop_pending none db = refl
organizations-drop_pending (some i) db = refl

add_invite-IsSound :
    (settings : Settings) (now token_hash inviter org_id : ℕ) (email : Text) (role : OrgRole)
    (db : Db)
    → IsSound db
    → is_owner role ≡ false
    → 1 ≤ orgs org_id db.organizations
    → tally (is_pending org_id email) db.invites ≡ 0
    → IsSound (add_invite settings now token_hash inviter org_id email role db)
unfolding add_invite
add_invite-IsSound settings now token_hash inviter org_id email role db v plain home room = record {
  ownership = record {
    one_owner = v.ownership.one_owner;
    one_org = v.ownership.one_org;
    homes = v.ownership.homes;
    new_user = λ n o h. v.ownership.new_user n o (omega arith);
    new_org = λ n h. v.ownership.new_org n (omega arith);
  };
  registered = later-IsRegistered db.users db.next_id v.registered;
  invited = new-IsInvited _ db.invites db.organizations v.invited plain home room;
}

module _ (hash : ℕ → ℕ) where
  pub create_invite-Keeps :
      (settings : Settings) (now raw : ℕ) (token : Option ℕ) (org_id : ℕ) (email : Text)
      (role : OrgRole) (db : Db)
      → IsSound db
      → Keeps (create_invite hash settings now raw token org_id email role db)
  unfolding create_invite
  create_invite-Keeps settings now raw token org_id email role db v =
      Succeeds-bind Asked Sound (require_org_admin db token) _ (require_org_admin-Asked db token v)
        λ r a. Succeeds-raise_if Sound _ 403 _ _ λ here. Succeeds-raise_if Sound _ 422 _ _ λ plain.
          Succeeds-raise_if Sound _ 409 _ _ λ _.
            let open_one : Option OrganizationInvite = find (is_pending org_id email) r.1.invites in
            Succeeds-ok Sound _ (
              add_invite-IsSound settings now (hash raw) r.0.user.id org_id email role
                (drop_pending open_one r.1) (drop_pending-IsSound open_one r.1 a.sound) plain
                (rw (organizations-drop_pending open_one r.1)
                  (omega (arith, here-orgs r org_id a here)))
                (pending-drop org_id email r.1 a.sound.invited))

  pub resend_invite-Keeps :
      (settings : Settings) (now raw : ℕ) (token : Option ℕ) (org_id invite_id : ℕ) (db : Db)
      → IsSound db
      → Keeps (resend_invite hash settings now raw token org_id invite_id db)
  unfolding resend_invite
  resend_invite-Keeps settings now raw token org_id invite_id db v =
      Succeeds-bind Asked Sound (require_org_admin db token) _ (require_org_admin-Asked db token v)
        λ r a. Succeeds-raise_if Sound _ 403 _ _ λ _.
          Succeeds-or_raise Sound (find (is_invite invite_id) r.1.invites) 404 _ _ λ i _.
            Succeeds-raise_if Sound _ 404 _ _ λ _. Succeeds-ok Sound _ (record {
              ownership = a.sound.ownership;
              registered = a.sound.registered;
              invited =
                  relink-IsInvited invite_id (hash raw) (invite_expiry settings now) r.1.invites
                    r.1.organizations a.sound.invited;
            })

pub revoke_invite-Keeps :
    (token : Option ℕ) (org_id invite_id : ℕ) (db : Db)
    → IsSound db
    → Keeps (revoke_invite token org_id invite_id db)
unfolding revoke_invite
revoke_invite-Keeps token org_id invite_id db v =
    Succeeds-bind Asked Sound (require_org_admin db token) _ (require_org_admin-Asked db token v)
      λ r a. Succeeds-raise_if Sound _ 403 _ _ λ _.
        Succeeds-or_raise Sound (find (is_invite invite_id) r.1.invites) 404 _ _ λ i _.
          Succeeds-raise_if Sound _ 404 _ _ λ _. Succeeds-ok Sound _ (record {
            ownership = a.sound.ownership;
            registered = a.sound.registered;
            invited =
                reject-IsInvited (is_invite invite_id) r.1.invites r.1.organizations
                  a.sound.invited;
          })

-- An invite that stands in the table: it is none for an owner, and its organization exists.
pub record IsOpen (db : Db) (i : OrganizationInvite) : Type 0 where
  pub plain : is_owner i.role ≡ false
  pub home : orgs i.organization_id db.organizations ≡ 1

found-IsOpen :
    (db : Db) (test : OrganizationInvite → Bool) (i : OrganizationInvite)
    → IsSound db
    → find test db.invites ≡ some i
    → IsOpen db i
found-IsOpen db test i v h = record {
  plain = ground (arith, find-listed test (λ r. is_owner r.role) db.invites i h, v.invited.plain);
  home = ground (
    arith,
    find-listed test (λ r. r.organization_id == i.organization_id) db.invites i h,
    v.invited.at_home i.organization_id,
    v.ownership.one_org i.organization_id,
  );
}

accept_as-Keeps :
    (db : Db) (i : OrganizationInvite) (found current : Option User) (password : Bool)
    (full_name : Text)
    → IsSound db
    → IsOpen db i
    → find (has_email i.email) db.users ≡ found
    → Keeps (accept_as i found current password full_name db)
unfolding accept_new accept_existing
accept_as-Keeps db i none current password full_name v live absent =
    Succeeds-raise_if Sound _ 422 _ _ λ _.
      Succeeds-ok Sound _ (
        join_new-IsSound db i.email full_name i.organization_id i.role v live.plain live.home
          absent)
accept_as-Keeps db i (some user) current password full_name v live found =
    Succeeds-or_raise Sound current 409 _ _ λ c _. Succeeds-raise_if Sound _ 403 _ _ λ _.
      Succeeds-raise_if_some Sound (get_membership db user.id i.organization_id) 409 _ _ λ absent.
        Succeeds-ok Sound _ (
          add_membership-IsSound db user i.organization_id i.role v live.plain
            (unfold get_membership in
              find-none (is_membership user.id i.organization_id) db.memberships absent)
            live.home (old_account (has_email i.email) user db.users db.next_id v.registered found))

mark_accepted-IsSound :
    (now : ℕ) (i : OrganizationInvite) (db : Db) → IsSound db → IsSound (mark_accepted now i db)
unfolding mark_accepted
mark_accepted-IsSound now i db v = record {
  ownership = v.ownership;
  registered = v.registered;
  invited = accept-IsInvited i.id now db.invites db.organizations v.invited;
}

module _ (hash : ℕ → ℕ) where
  -- What a link leads to: an invite of the table, not accepted yet, and not expired.
  pub record IsCurrent (now raw : ℕ) (db : Db) (i : OrganizationInvite) : Type 0 where
    pub open_one : IsOpen db i
    pub linked : i.token_hash ≡ hash raw
    pub unaccepted : i.accepted_at ≡ none
    pub in_time : now ≤ i.expires_at

  pub invite_by_token-IsCurrent :
      (now raw : ℕ) (db : Db)
      → IsSound db
      → Succeeds (IsCurrent now raw db) (invite_by_token hash now raw db)
  unfolding invite_by_token
  invite_by_token-IsCurrent now raw db v =
      Succeeds-or_raise (IsCurrent now raw db) (find (λ r. r.token_hash == hash raw) db.invites) 404
        _ _
        λ i h. Succeeds-raise_if (IsCurrent now raw db) _ 404 _ _ λ unaccepted.
          Succeeds-raise_if (IsCurrent now raw db) _ 410 _ _ λ in_time.
            Succeeds-ok (IsCurrent now raw db) i (record {
              open_one = found-IsOpen db (λ r. r.token_hash == hash raw) i v h;
              linked = ground (arith, find-some (λ r. r.token_hash == hash raw) db.invites i h);
              unaccepted = ground arith;
              in_time = ground arith;
            })

  pub accept_invite-Keeps :
      (now raw : ℕ) (password : Bool) (full_name : Text) (current : Option User) (db : Db)
      → IsSound db
      → Keeps (accept_invite hash now raw password full_name current db)
  unfolding accept_invite
  accept_invite-Keeps now raw password full_name current db v =
      Succeeds-bind (IsCurrent now raw db) Sound (invite_by_token hash now raw db) _
        (invite_by_token-IsCurrent now raw db v)
        λ i c.
          Succeeds-bind Sound Sound
            (accept_as i (find (has_email i.email) db.users) current password full_name db) _
            (accept_as-Keeps db i (find (has_email i.email) db.users) current password full_name v
              c.open_one refl)
            λ accepted sound. Succeeds-ok Sound _ (mark_accepted-IsSound now i accepted.1 sound)
