-- ===== src/Organizations/Ownership.antt =====
-- Every organization has exactly one owner: the invariant behind server/app/api/organizations.py, and
-- how each write of its handlers keeps it.
use corella.Prelude.{
  ℕ, suc, ◌+◌, ◌≤◌, ◌≡◌, refl, sym, Bool, true, false, not, ◌&&◌, List, [], ◌∷◌, ◌++◌,
  if◌then◌else◌, arith, ◌∙◌, modify, tally, Text, tally-split,
}
use mathlib.Core.Path.{subst₃}
use corella.Organizations.Model.{
  OrgRole, owner, admin, is_owner, Organization, OrganizationMembership, Db, is_membership, User,
}
use corella.Organizations.Service.{create_organization, add_membership}
use corella.Organizations.Members.{set_role, drop_membership, drop_organization}
use corella.Organizations.Counts.{
  owners, members, owned, orgs, owners-modify, members-modify, owned-le-owners, owners-reject,
  members-reject-le, owners-reject_org, members-reject_org, orgs-reject, owners-append,
  members-append, orgs-append,
}

-- One owner for each organization that exists, and none elsewhere; ids are not reused; a user has at
-- most one membership in an organization, and only in one that exists.
pub record OwnedTables (memberships : List OrganizationMembership)
    (organizations : List Organization) (next_id : ℕ) : Type 0 where
  pub one_owner : (o : ℕ) → owners o memberships ≡ orgs o organizations
  pub one_org : (o : ℕ) → orgs o organizations ≤ 1
  pub homes : (u o : ℕ) → members u o memberships ≤ orgs o organizations
  pub new_user : (n o : ℕ) → next_id ≤ n → members n o memberships ≡ 0
  pub new_org : (n : ℕ) → next_id ≤ n → orgs n organizations ≡ 0

abbrev pub IsOwned : Db → Type 0
IsOwned db = OwnedTables db.memberships db.organizations db.next_id

-- A row that stands in the table.
abbrev pub IsListed : OrganizationMembership → Db → Type 0
IsListed m db = (q : OrganizationMembership → Bool) → q m ≡ true → 1 ≤ tally q db.memberships

module _ (db : Db) (v : IsOwned db) (m : OrganizationMembership) (listed : IsListed m db) where
  m_here : 1 ≤ members m.user_id m.organization_id db.memberships
  m_here = listed (is_membership m.user_id m.organization_id) (ground arith)

  -- The one row of a member says whether it is the owner.
  owned-row : owned m.user_id m.organization_id db.memberships ≡ (if is_owner m.role then 1 else 0)
  owned-row = ground (
    arith,
    m_here,
    listed (λ r. is_membership m.user_id m.organization_id r && is_owner r.role),
    listed (λ r. is_membership m.user_id m.organization_id r && not (is_owner r.role)),
    tally-split (is_membership m.user_id m.organization_id) (λ r. is_owner r.role) db.memberships,
    v.homes m.user_id m.organization_id,
    v.one_org m.organization_id,
  )

  -- A member that is not the owner gets another such role.
  pub set_role-IsOwned :
      (role : OrgRole)
      → is_owner m.role ≡ false
      → is_owner role ≡ false
      → IsOwned (set_role m.user_id m.organization_id role db)
  unfolding set_role
  set_role-IsOwned role plain plain' = record {
    one_owner = λ p. ground (
      arith,
      owners-modify m.user_id m.organization_id p role db.memberships,
      owned-row,
      v.one_owner p,
    );
    one_org = v.one_org;
    homes = λ w p.
        omega
          (arith, members-modify m.user_id m.organization_id w p role db.memberships, v.homes w p);
    new_user = λ n p h. omega (
      arith,
      members-modify m.user_id m.organization_id n p role db.memberships,
      v.new_user n p h,
    );
    new_org = v.new_org;
  }

  -- A member that is not the owner goes.
  pub drop_membership-IsOwned :
      is_owner m.role ≡ false → IsOwned (drop_membership m.user_id m.organization_id db)
  unfolding drop_membership
  drop_membership-IsOwned plain = record {
    one_owner = λ p. ground (
      arith,
      owners-reject m.user_id m.organization_id p db.memberships,
      owned-row,
      v.one_owner p,
    );
    one_org = v.one_org;
    homes = λ w p. omega (
      arith,
      members-reject-le (is_membership m.user_id m.organization_id) w p db.memberships,
      v.homes w p,
    );
    new_user = λ n p h. omega (
      arith,
      members-reject-le (is_membership m.user_id m.organization_id) n p db.memberships,
      v.new_user n p h,
    );
    new_org = v.new_org;
  }

  -- The owner hands over to a member of the same organization, which may be the owner itself.
  pub transfer-IsOwned :
      (t : OrganizationMembership)
      → is_owner m.role ≡ true
      → t.organization_id ≡ m.organization_id
      → 1 ≤ members t.user_id t.organization_id db.memberships
      → IsOwned (
          set_role t.user_id t.organization_id owner
            (set_role m.user_id m.organization_id admin db))
  unfolding set_role
  transfer-IsOwned t owns same here =
      let ms =
        modify (is_membership m.user_id m.organization_id) (λ r. record r { role = admin })
          db.memberships in
      let moved : (w p : ℕ)
          → members w p (
              modify (is_membership t.user_id t.organization_id) (λ r. record r { role = owner })
                ms)
            ≡ members w p db.memberships =
        λ w p.
          members-modify t.user_id t.organization_id w p owner ms
          ∙ members-modify m.user_id m.organization_id w p admin db.memberships in
      record {
        one_owner = λ p. ground (
          arith,
          owners-modify m.user_id m.organization_id p admin db.memberships,
          owners-modify m.user_id m.organization_id m.organization_id admin db.memberships,
          owners-modify t.user_id t.organization_id p owner ms,
          members-modify m.user_id m.organization_id t.user_id t.organization_id admin
              db.memberships,
          owned-le-owners t.user_id t.organization_id ms,
          owned-row,
          v.one_owner p,
          v.one_owner m.organization_id,
          v.homes t.user_id t.organization_id,
          v.one_org m.organization_id,
        );
        one_org = v.one_org;
        homes = λ w p. omega (arith, moved w p, v.homes w p);
        new_user = λ n p h. omega (arith, moved n p, v.new_user n p h);
        new_org = v.new_org;
      }

-- The three tables after a join, and after a new organization.
tables_joined :
    (db : Db) (user : User) (o : ℕ) (role : OrgRole) (activate : Bool)
    → ((add_membership db user o role activate).memberships
        ≡ db.memberships ++ record { user_id = user.id; organization_id = o; role = role } ∷ [])
      × ((add_membership db user o role activate).organizations ≡ db.organizations)
      × ((add_membership db user o role activate).next_id ≡ db.next_id)
unfolding add_membership
tables_joined db user o role activate = ground arith

abbrev new_org_row : Db → Text → Bool → Organization
new_org_row db name is_instance_org = record {
  id = db.next_id;
  name = name;
  is_instance_org = is_instance_org;
}

tables_created :
    (db : Db) (owner_id : ℕ) (name : Text) (is_instance_org activate : Bool)
    → let db' = (create_organization db owner_id name is_instance_org activate).1 in
      (db'.memberships
        ≡ db.memberships
          ++ record { user_id = owner_id; organization_id = db.next_id; role = owner } ∷ [])
      × (db'.organizations ≡ db.organizations ++ new_org_row db name is_instance_org ∷ [])
      × (db'.next_id ≡ db.next_id + 1)
unfolding create_organization
tables_created db owner_id name is_instance_org true = (refl, refl, refl)
tables_created db owner_id name is_instance_org false = (refl, refl, refl)

module _ (db : Db) (v : IsOwned db) where
  -- Someone who is no member of an organization that exists joins it, not as its owner.
  pub add_membership-IsOwned :
      (user : User) (o : ℕ) (role : OrgRole) (activate : Bool)
      → is_owner role ≡ false
      → members user.id o db.memberships ≡ 0
      → orgs o db.organizations ≡ 1
      → suc user.id ≤ db.next_id
      → IsOwned (add_membership db user o role activate)
  add_membership-IsOwned user o role activate plain absent exists old =
      subst₃ OwnedTables (sym (tables_joined db user o role activate).0)
        (sym (tables_joined db user o role activate).1)
        (sym (tables_joined db user o role activate).2)
        (record {
          one_owner =
              λ p. ground (arith, owners-append p user.id o role db.memberships, v.one_owner p);
          one_org = v.one_org;
          homes = λ w p. ground (
            arith,
            members-append w p user.id o role db.memberships,
            v.homes w p,
            exists,
            absent,
          );
          new_user = λ n p h.
              ground (arith, members-append n p user.id o role db.memberships, v.new_user n p h);
          new_org = v.new_org;
        })

  -- A new organization, owned by an account that exists.
  pub create_organization-IsOwned :
      (owner_id : ℕ) (name : Text) (is_instance_org activate : Bool)
      → suc owner_id ≤ db.next_id
      → IsOwned (create_organization db owner_id name is_instance_org activate).1
  create_organization-IsOwned owner_id name is_instance_org activate old =
      subst₃ OwnedTables (sym (tables_created db owner_id name is_instance_org activate).0)
        (sym (tables_created db owner_id name is_instance_org activate).1)
        (sym (tables_created db owner_id name is_instance_org activate).2)
        (record {
          one_owner = λ p. ground (
            arith,
            owners-append p owner_id db.next_id owner db.memberships,
            orgs-append p (new_org_row db name is_instance_org) db.organizations,
            v.one_owner p,
          );
          one_org = λ p. ground (
            arith,
            orgs-append p (new_org_row db name is_instance_org) db.organizations,
            v.one_org p,
            v.new_org p,
          );
          homes = λ w p. ground (
            arith,
            members-append w p owner_id db.next_id owner db.memberships,
            orgs-append p (new_org_row db name is_instance_org) db.organizations,
            v.homes w p,
            v.new_org p,
          );
          new_user = λ n p h.
              ground (
                arith,
                members-append n p owner_id db.next_id owner db.memberships,
                v.new_user n p,
              );
          new_org = λ n h. ground (
            arith,
            orgs-append n (new_org_row db name is_instance_org) db.organizations,
            v.new_org n,
          );
        })

  pub drop_organization-IsOwned : (o : ℕ) → IsOwned (drop_organization o db)
  unfolding drop_organization
  drop_organization-IsOwned o = record {
    one_owner = λ p. ground (
      arith,
      owners-reject_org o p db.memberships,
      orgs-reject o p db.organizations,
      v.one_owner p,
    );
    one_org = λ p. ground (arith, orgs-reject o p db.organizations, v.one_org p);
    homes = λ w p. ground (
      arith,
      members-reject_org o w p db.memberships,
      orgs-reject o p db.organizations,
      v.homes w p,
    );
    new_user = λ n p h. ground (arith, members-reject_org o n p db.memberships, v.new_user n p h);
    new_org = λ n h. ground (arith, orgs-reject o n db.organizations, v.new_org n h);
  }
