-- ===== src/Organizations/Preserve/Accounts.antt =====
-- New accounts and organizations in server/app/api/organizations.py and `register` of
-- server/app/api/auth.py, keep the tables sound.
use corella.Prelude.{ℕ, suc, ◌≤◌, ◌≡◌, refl, true, false, Option, none, some, find, arith, Text}
use corella.Http.{
  Result, Succeeds, Succeeds-or_raise, Succeeds-bind, Succeeds-raise_if, Succeeds-raise_if_some,
  Succeeds-ok, or_raise, ◌>>=◌,
}
use corella.Organizations.Model.{User, Db, Settings, is_user, is_organization}
use corella.Organizations.Service.{get_membership, default_org_name, create_organization}
use corella.Organizations.Deps.{get_current_user}
use corella.Organizations.Members.{has_email, add_user, register, create_org, switch_current_org}
use corella.Organizations.Ownership.{create_organization-IsOwned}
use corella.Organizations.Tables.{
  IsSound, active-IsRegistered, new-IsRegistered, later-IsRegistered, old_account, more-IsInvited,
}
use corella.Organizations.Preserve.Asking.{set_active-IsSound}

-- What a request keeps, whatever else it answers.
abbrev pub Sound : {A : Type 0} → A × Db → Type 0
Sound r = IsSound r.1

abbrev pub Keeps : {A : Type 0} → Result (A × Db) → Type 0
Keeps = Succeeds Sound

-- The account behind a token is older than the next id.
abbrev IsKnown : Db → User → Type 0
IsKnown db user = suc user.id ≤ db.next_id

found-IsKnown :
    (db : Db) (u : ℕ) (o : Option User)
    → IsSound db
    → find (is_user u) db.users ≡ o
    → Succeeds (IsKnown db) (or_raise o 401 "Could not validate credentials")
unfolding Succeeds or_raise
found-IsKnown db u none v e = tt
found-IsKnown db u (some user) v e = old_account (is_user u) user db.users db.next_id v.registered e

get_current_user-IsKnown :
    (db : Db) (token : Option ℕ) → IsSound db → Succeeds (IsKnown db) (get_current_user db token)
unfolding get_current_user Succeeds ◌>>=◌ or_raise
get_current_user-IsKnown db none v = tt
get_current_user-IsKnown db (some u) v = found-IsKnown db u (find (is_user u) db.users) v refl

pub create_organization-IsSound :
    (db : Db) (u : ℕ) (name : Text)
    → IsSound db
    → suc u ≤ db.next_id
    → IsSound (create_organization db u name false true).1
create_organization-IsSound db u name v old = record {
  ownership = create_organization-IsOwned db v.ownership u name false true old;
  registered =
      unfold create_organization in
      later-IsRegistered _ db.next_id
        (active-IsRegistered (is_user u) (some db.next_id) db.users db.next_id v.registered);
  invited = unfold create_organization in more-IsInvited db.invites db.organizations _ v.invited;
}

pub add_user-IsSound :
    (db : Db) (email full_name : Text) (active : Option ℕ)
    → IsSound db
    → find (has_email email) db.users ≡ none
    → IsSound (add_user db email full_name active).1
unfolding add_user
add_user-IsSound db email full_name active v absent = record {
  ownership = record {
    one_owner = v.ownership.one_owner;
    one_org = v.ownership.one_org;
    homes = v.ownership.homes;
    new_user = λ n o h. v.ownership.new_user n o (omega arith);
    new_org = λ n h. v.ownership.new_org n (omega arith);
  };
  registered = new-IsRegistered _ db.users db.next_id v.registered refl absent;
  invited = v.invited;
}

pub register-Keeps :
    (settings : Settings) (email full_name : Text) (db : Db)
    → IsSound db
    → Keeps (register settings email full_name db)
unfolding register
register-Keeps settings email full_name db v = Succeeds-raise_if Sound _ 403 _ _ λ _.
    Succeeds-raise_if_some Sound (find (has_email email) db.users) 409 _ _ λ absent.
      Succeeds-ok Sound _ (
        create_organization-IsSound (add_user db email full_name none).1 db.next_id
          (default_org_name full_name) (add_user-IsSound db email full_name none v absent)
          (omega arith))

pub create_org-Keeps :
    (settings : Settings) (token : Option ℕ) (name : Text) (db : Db)
    → IsSound db
    → Keeps (create_org settings token name db)
unfolding create_org
create_org-Keeps settings token name db v =
    Succeeds-bind (IsKnown db) Sound (get_current_user db token) _
      (get_current_user-IsKnown db token v)
      λ user old. Succeeds-raise_if Sound _ 403 _ _ λ _.
        Succeeds-raise_if Sound _ 403 _ _
          λ _. Succeeds-ok Sound _ (create_organization-IsSound db user.id _ v old)

pub switch_current_org-Keeps :
    (token : Option ℕ) (org_id : ℕ) (db : Db)
    → IsSound db
    → Keeps (switch_current_org token org_id db)
unfolding switch_current_org
switch_current_org-Keeps token org_id db v =
    Succeeds-bind (IsKnown db) Sound (get_current_user db token) _
      (get_current_user-IsKnown db token v)
      λ user _. Succeeds-or_raise Sound (get_membership db user.id org_id) 404 _ _ λ m _.
        Succeeds-or_raise Sound (find (is_organization org_id) db.organizations) 404 _ _
          λ org _. Succeeds-ok Sound _ (set_active-IsSound user.id (some org.id) db v)
