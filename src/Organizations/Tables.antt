-- ===== src/Organizations/Tables.antt =====
-- The invariant of the tables of server/app/models/organization.py and user.py: that of the owners,
-- and what the unique indexes on accounts and invites ask for.
use corella.Prelude.{
  ℕ, suc, ◌+◌, ◌≤◌, ◌≡◌, refl, Bool, true, false, ◌&&◌, Option, none, some, List, [], ◌∷◌, ◌++◌,
  ◌==◌, if◌then◌else◌, arith, find, modify, reject, tally, Text, text_eq, find-none, find-some,
  find-listed, tally-reject, tally-modify_keep, text_eq_iff, tally-snoc, tally-reject-le,
  tally-modify-le, Bool-cases, Option-cases, inl, inr,
}
use mathlib.Core.Path.{subst, subst₂}
use corella.Organizations.Model.{
  is_owner, User, Organization, OrganizationInvite, Db, is_user, is_organization,
}
use corella.Organizations.Members.{has_email}
use corella.Organizations.Invites.{is_pending, is_invite, drop_pending}
use corella.Organizations.Counts.{orgs, orgs-reject}
use corella.Organizations.Ownership.{IsOwned}

abbrev pub accounts : ℕ → List User → ℕ
accounts n = tally (is_user n)

abbrev pub emails : Text → List User → ℕ
emails e = tally (has_email e)

abbrev pub pending : ℕ → Text → List OrganizationInvite → ℕ
pending o e = tally (is_pending o e)

abbrev pub invites_to : ℕ → List OrganizationInvite → ℕ
invites_to o = tally (λ i. i.organization_id == o)

-- No two accounts have one e-mail or one id, and no account has an id that is still to come.
pub record IsRegistered (users : List User) (next_id : ℕ) : Type 0 where
  pub one_email : (e : Text) → emails e users ≤ 1
  pub one_account : (n : ℕ) → accounts n users ≤ 1
  pub new_account : (n : ℕ) → next_id ≤ n → accounts n users ≡ 0

-- Nobody is invited as an owner, nor to an organization that does not exist, and an e-mail has at most
-- one open invite to an organization.
pub record IsInvited (invites : List OrganizationInvite) (organizations : List Organization)
    : Type 0 where
  pub plain : tally (λ i. is_owner i.role) invites ≡ 0
  pub at_home : (o : ℕ) → orgs o organizations ≡ 0 → invites_to o invites ≡ 0
  pub one_pending : (o : ℕ) (e : Text) → pending o e invites ≤ 1

pub record IsSound (db : Db) : Type 0 where
  pub ownership : IsOwned db
  pub registered : IsRegistered db.users db.next_id
  pub invited : IsInvited db.invites db.organizations

-- A change of the active organization is no change to an account's id or e-mail.
pub active-IsRegistered :
    (test : User → Bool) (active : Option ℕ) (users : List User) (next_id : ℕ)
    → IsRegistered users next_id
    → IsRegistered (modify test (λ u. record u { active_organization_id = active }) users) next_id
active-IsRegistered test active users next_id v = record {
  one_email = λ e.
      rw
        (tally-modify_keep test (has_email e) (λ u. record u { active_organization_id = active })
          users (λ u. refl))
        (v.one_email e);
  one_account = λ n.
      rw
        (tally-modify_keep test (is_user n) (λ u. record u { active_organization_id = active })
          users (λ u. refl))
        (v.one_account n);
  new_account = λ n h.
      rw
        (tally-modify_keep test (is_user n) (λ u. record u { active_organization_id = active })
          users (λ u. refl))
        (v.new_account n h);
}

-- An account that a search found is older than the next id.
pub old_account :
    (test : User → Bool) (user : User) (users : List User) (next_id : ℕ)
    → IsRegistered users next_id
    → find test users ≡ some user
    → suc user.id ≤ next_id
old_account test user users next_id v found =
    ground (arith, find-listed test (is_user user.id) users user found, v.new_account user.id)

emails_new :
    (e : Text) (user : User) (users : List User) (next_id : ℕ)
    → IsRegistered users next_id
    → find (has_email user.email) users ≡ none
    → emails e users + (if text_eq user.email e then 1 else 0) ≤ 1
emails_new e user users next_id v absent = elim (Bool-cases (text_eq user.email e)) [
  | inl same ↦ rw same (
      subst (λ x. emails x users + 1 ≤ 1) ((text_eq_iff user.email e).0 same)
        (omega (arith, find-none (has_email user.email) users absent)))
  | inr other ↦ rw other (omega (arith, v.one_email e))
]

-- A new account with an e-mail that has none.
pub new-IsRegistered :
    (user : User) (users : List User) (next_id : ℕ)
    → IsRegistered users next_id
    → user.id ≡ next_id
    → find (has_email user.email) users ≡ none
    → IsRegistered (users ++ user ∷ []) (next_id + 1)
new-IsRegistered user users next_id v fresh absent = record {
  one_email = λ e. rw tally-snoc (emails_new e user users next_id v absent);
  one_account =
      λ n. ground (arith, tally-snoc (is_user n) users user, v.one_account n, v.new_account n);
  new_account = λ n h. ground (arith, tally-snoc (is_user n) users user, v.new_account n);
}

-- An id that is given to something else.
pub later-IsRegistered :
    (users : List User) (next_id : ℕ)
    → IsRegistered users next_id
    → IsRegistered users (next_id + 1)
later-IsRegistered users next_id v = record {
  one_email = v.one_email;
  one_account = v.one_account;
  new_account = λ n h. v.new_account n (omega arith);
}

-- Invites that go.
pub reject-IsInvited :
    (test : OrganizationInvite → Bool) (invites : List OrganizationInvite)
    (organizations : List Organization)
    → IsInvited invites organizations
    → IsInvited (reject test invites) organizations
reject-IsInvited test invites organizations v = record {
  plain = omega (arith, tally-reject-le test (λ i. is_owner i.role) invites, v.plain);
  at_home = λ o h.
      omega (arith, tally-reject-le test (λ i. i.organization_id == o) invites, v.at_home o h);
  one_pending =
      λ o e. omega (arith, tally-reject-le test (is_pending o e) invites, v.one_pending o e);
}

-- The open invite to an e-mail, if there is one, makes place for the new one.
pub pending-drop :
    (o : ℕ) (e : Text) (db : Db)
    → IsInvited db.invites db.organizations
    → pending o e (drop_pending (find (is_pending o e) db.invites) db).invites ≡ 0
pending-drop o e db v = elim (Option-cases (find (is_pending o e) db.invites)) [
  | inl absent ↦ rw absent (find-none (is_pending o e) db.invites absent)
  | inr (i, found) ↦ rw found (
      omega (
        arith,
        tally-reject (is_invite i.id) (is_pending o e) db.invites,
        find-listed (is_pending o e) (λ r. is_invite i.id r && is_pending o e r) db.invites i found
            (both (is_invite i.id i) (is_pending o e i) (ground arith)
              (find-some (is_pending o e) db.invites i found).0),
        v.one_pending o e,
      ))
]
  where
    both : (a b : Bool) → a ≡ true → b ≡ true → (a && b) ≡ true
    both a b p q = ground arith

pending_same :
    (o : ℕ) (e : Text) (i : OrganizationInvite)
    → is_pending o e i ≡ true
    → (i.organization_id ≡ o) × (i.email ≡ e)
pending_same o e i h = ground (arith, text_eq_iff i.email e)

pending_new :
    (i : OrganizationInvite) (invites : List OrganizationInvite) (o : ℕ) (e : Text)
    → pending o e invites ≤ 1
    → pending i.organization_id i.email invites ≡ 0
    → pending o e invites + (if is_pending o e i then 1 else 0) ≤ 1
pending_new i invites o e one room = elim (Bool-cases (is_pending o e i)) [
  | inl same ↦ rw same (
      subst₂ (λ p x. pending p x invites + 1 ≤ 1) (pending_same o e i same).0
        (pending_same o e i same).1 (omega arith))
  | inr other ↦ rw other (omega arith)
]

invites_to-reject :
    (o p : ℕ) (xs : List OrganizationInvite)
    → invites_to p (reject (λ r. r.organization_id == o) xs)
      ≡ (if o == p then 0 else invites_to p xs)
unfolding tally reject
invites_to-reject o p [] = ground arith
invites_to-reject o p (r ∷ xs) = ground (arith, invites_to-reject o p xs)

-- A new open invite.
pub new-IsInvited :
    (i : OrganizationInvite) (invites : List OrganizationInvite) (organizations : List Organization)
    → IsInvited invites organizations
    → is_owner i.role ≡ false
    → 1 ≤ orgs i.organization_id organizations
    → pending i.organization_id i.email invites ≡ 0
    → IsInvited (invites ++ i ∷ []) organizations
new-IsInvited i invites organizations v plain home room = record {
  plain = ground (arith, tally-snoc (λ r. is_owner r.role) invites i, v.plain);
  at_home =
      λ o h. ground (arith, tally-snoc (λ r. r.organization_id == o) invites i, v.at_home o h);
  one_pending = λ o e. rw tally-snoc (pending_new i invites o e (v.one_pending o e) room);
}

-- A new link for an invite.
pub relink-IsInvited :
    (id token_hash expires_at : ℕ) (invites : List OrganizationInvite)
    (organizations : List Organization)
    → IsInvited invites organizations
    → IsInvited
        (modify
          (is_invite id)
          (λ r. record r { token_hash = token_hash; expires_at = expires_at })
          invites)
        organizations
relink-IsInvited id token_hash expires_at invites organizations v =
    let f : OrganizationInvite → OrganizationInvite =
      λ r. record r { token_hash = token_hash; expires_at = expires_at } in
    record {
      plain =
          rw (tally-modify_keep (is_invite id) (λ i. is_owner i.role) f invites (λ i. refl))
            v.plain;
      at_home = λ o h.
          rw (tally-modify_keep (is_invite id) (λ i. i.organization_id == o) f invites (λ i. refl))
            (v.at_home o h);
      one_pending = λ o e.
          rw (tally-modify_keep (is_invite id) (is_pending o e) f invites (λ i. refl))
            (v.one_pending o e);
    }

-- An invite that is accepted.
pub accept-IsInvited :
    (id now : ℕ) (invites : List OrganizationInvite) (organizations : List Organization)
    → IsInvited invites organizations
    → IsInvited
        (modify (is_invite id) (λ r. record r { accepted_at = some now }) invites)
        organizations
accept-IsInvited id now invites organizations v =
    let f : OrganizationInvite → OrganizationInvite = λ r. record r { accepted_at = some now } in
    record {
      plain =
          rw (tally-modify_keep (is_invite id) (λ i. is_owner i.role) f invites (λ i. refl))
            v.plain;
      at_home = λ o h.
          rw (tally-modify_keep (is_invite id) (λ i. i.organization_id == o) f invites (λ i. refl))
            (v.at_home o h);
      one_pending = λ o e. omega (
        arith,
        tally-modify-le (is_invite id) (is_pending o e) f invites (λ i h. not_pending o e i now h),
        v.one_pending o e,
      );
    }
  where
    not_pending :
        (o : ℕ) (e : Text) (i : OrganizationInvite) (t : ℕ)
        → is_pending o e (record i { accepted_at = some t }) ≡ true
        → is_pending o e i ≡ true
    not_pending o e i t h = ground arith

-- Organizations that are added, and one that goes with its invites.
pub more-IsInvited :
    (invites : List OrganizationInvite) (organizations : List Organization) (org : Organization)
    → IsInvited invites organizations
    → IsInvited invites (organizations ++ org ∷ [])
more-IsInvited invites organizations org v = record {
  plain = v.plain;
  at_home = λ o h. v.at_home o (omega (arith, tally-snoc (is_organization o) organizations org, h));
  one_pending = v.one_pending;
}

pub fewer-IsInvited :
    (o : ℕ) (invites : List OrganizationInvite) (organizations : List Organization)
    → IsInvited invites organizations
    → IsInvited
        (reject (λ r. r.organization_id == o) invites)
        (reject (is_organization o) organizations)
fewer-IsInvited o invites organizations v = record {
  plain = (reject-IsInvited (λ r. r.organization_id == o) invites organizations v).plain;
  at_home = λ p h.
      ground (arith, invites_to-reject o p invites, orgs-reject o p organizations, v.at_home p);
  one_pending =
      (reject-IsInvited (λ r. r.organization_id == o) invites organizations v).one_pending;
}
