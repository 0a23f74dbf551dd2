-- ===== src/Organizations/SingleUse.antt =====
-- An invite of server/app/api/organizations.py is accepted at most once.
use corella.Prelude.{
  ℕ, ◌≡◌, refl, Bool, true, Option, none, some, ◌==◌, find, arith, Text, find-modify, ap, ◌∙◌,
}
use corella.Http.{
  ok, http_exception, ◌>>=◌, raise_if, or_raise, Succeeds, Succeeds-or_raise, Succeeds-bind,
  Succeeds-raise_if, Succeeds-raise_if_some, Succeeds-ok, Succeeds-of,
}
use corella.Organizations.Model.{OrganizationInvite, User, Db}
use corella.Organizations.Service.{get_membership, add_membership}
use corella.Organizations.Members.{has_email, add_user}
use corella.Organizations.Invites.{
  is_invite, invite_by_token, accept_new, accept_existing, accept_as, mark_accepted, accept_invite,
}

invites-add_user :
    (db : Db) (email full_name : Text) (active : Option ℕ)
    → (add_user db email full_name active).1.invites ≡ db.invites
unfolding add_user
invites-add_user db email full_name active = refl

invites-add_membership :
    (db : Db) (user : User) (o : ℕ) (role : _) (activate : Bool)
    → (add_membership db user o role activate).invites ≡ db.invites
unfolding add_membership
invites-add_membership db user o role activate = ground arith

-- Joining leaves the invites alone.
abbrev SameInvites : Db → User × Db → Type 0
SameInvites db r = r.1.invites ≡ db.invites

accept_as-SameInvites :
    (db : Db) (i : OrganizationInvite) (found current : Option User) (password : Bool)
    (full_name : Text)
    → Succeeds (SameInvites db) (accept_as i found current password full_name db)
unfolding accept_new accept_existing
accept_as-SameInvites db i none current password full_name =
    Succeeds-raise_if (SameInvites db) _ 422 _ _ λ _.
      Succeeds-ok (SameInvites db) _
        (rw invites-add_membership (invites-add_user db i.email full_name (some i.organization_id)))
accept_as-SameInvites db i (some user) current password full_name =
    Succeeds-or_raise (SameInvites db) current 409 _ _ λ c _.
      Succeeds-raise_if (SameInvites db) _ 403 _ _ λ _.
        Succeeds-raise_if_some (SameInvites db) (get_membership db user.id i.organization_id) 409 _
          _
          λ _.
            Succeeds-ok (SameInvites db) _
              (invites-add_membership db user i.organization_id i.role true)

module _ (hash : ℕ → ℕ) where
  abbrev Linked : ℕ → Db → OrganizationInvite → Type 0
  Linked raw db i = find (λ r. r.token_hash == hash raw) db.invites ≡ some i

  invite_by_token-Linked :
      (now raw : ℕ) (db : Db) → Succeeds (Linked raw db) (invite_by_token hash now raw db)
  unfolding invite_by_token
  invite_by_token-Linked now raw db = Succeeds-or_raise (Linked raw db) _ 404 _ _ λ i h.
      Succeeds-raise_if (Linked raw db) _ 404 _ _
        λ _. Succeeds-raise_if (Linked raw db) _ 410 _ _ λ _. Succeeds-ok (Linked raw db) i h

  -- Whatever follows, the link of an invite that is marked accepted is not found.
  abbrev Spent : ℕ → User × Db → Type 0
  Spent raw r =
      (later : ℕ) → invite_by_token hash later raw r.1 ≡ http_exception 404 "Invite not found"

  mark_accepted-Spent :
      (now raw : ℕ) (db : Db) (i : OrganizationInvite) (r : User × Db)
      → Linked raw db i
      → SameInvites db r
      → Spent raw (r.0, mark_accepted now i r.1)
  unfolding mark_accepted invite_by_token or_raise raise_if ◌>>=◌
  mark_accepted-Spent now raw db i r h same later = rw (
      find-modify (is_invite i.id) (λ r. r.token_hash == hash raw)
        (λ r. record r { accepted_at = some now }) r.1.invites (λ x. refl) i
        (ap (find (λ r. r.token_hash == hash raw)) same ∙ h) (ground arith))

  accept_invite-Spent :
      (now raw : ℕ) (password : Bool) (full_name : Text) (current : Option User) (db : Db)
      → Succeeds (Spent raw) (accept_invite hash now raw password full_name current db)
  unfolding accept_invite
  accept_invite-Spent now raw password full_name current db =
      Succeeds-bind (Linked raw db) (Spent raw) (invite_by_token hash now raw db) _
        (invite_by_token-Linked now raw db)
        λ i h.
          Succeeds-bind (SameInvites db) (Spent raw) _ _
            (accept_as-SameInvites db i (find (has_email i.email) db.users) current password
              full_name)
            λ r same. Succeeds-ok (Spent raw) _ (mark_accepted-Spent now raw db i r h same)

  -- After an invite has been accepted, its link answers 404 at any later time, to whoever follows it.
  pub accept_once :
      (now later raw : ℕ) (password password' : Bool) (full_name full_name' : Text)
      (current current' : Option User) (db : Db) (r : User × Db)
      → accept_invite hash now raw password full_name current db ≡ ok r
      → accept_invite hash later raw password' full_name' current' r.1
        ≡ http_exception 404 "Invite not found"
  unfolding accept_invite ◌>>=◌
  accept_once now later raw password password' full_name full_name' current current' db r h = rw (
      Succeeds-of (Spent raw) _ r h (accept_invite-Spent now raw password full_name current db)
        later)
