-- ===== src/Organizations/Preserve/Groups.antt =====
-- The requests about groups in server/app/api/organizations.py keep the tables sound.
use corella.Prelude.{ℕ, Option, List, [], ◌∷◌, arith, Text}
use corella.Http.{
  Succeeds, Succeeds-or_raise, Succeeds-bind, Succeeds-then, Succeeds-raise_if, Succeeds-ok,
}
use corella.Organizations.Model.{Group, GroupMembership, Db}
use corella.Organizations.Service.{get_membership}
use corella.Organizations.Deps.{require_org_admin}
use corella.Organizations.Groups.{
  create_group, get_group, delete_group, drop_members, add_members, set_group_members,
}
use corella.Organizations.Tables.{IsSound, later-IsRegistered}
use corella.Organizations.Preserve.Asking.{Asked, require_org_admin-Asked}
use corella.Organizations.Preserve.Accounts.{Sound, Keeps}

-- The tables of the groups are none of those that the invariant reads.
regroup-IsSound :
    (groups : List Group) (group_memberships : List GroupMembership) (db : Db)
    → IsSound db
    → IsSound (record db { groups = groups; group_memberships = group_memberships })
regroup-IsSound groups group_memberships db v = record {
  ownership = v.ownership;
  registered = v.registered;
  invited = v.invited;
}

pub create_group-Keeps :
    (token : Option ℕ) (org_id : ℕ) (name : Text) (db : Db)
    → IsSound db
    → Keeps (create_group token org_id name db)
unfolding create_group
create_group-Keeps token org_id name db v =
    Succeeds-bind Asked Sound (require_org_admin db token) _ (require_org_admin-Asked db token v)
      λ r a. Succeeds-raise_if Sound _ 403 _ _ λ _. Succeeds-ok Sound _ (record {
        ownership = record {
          one_owner = a.sound.ownership.one_owner;
          one_org = a.sound.ownership.one_org;
          homes = a.sound.ownership.homes;
          new_user = λ n o h. a.sound.ownership.new_user n o (omega arith);
          new_org = λ n h. a.sound.ownership.new_org n (omega arith);
        };
        registered = later-IsRegistered r.1.users r.1.next_id a.sound.registered;
        invited = a.sound.invited;
      })

pub delete_group-Keeps :
    (token : Option ℕ) (org_id group_id : ℕ) (db : Db)
    → IsSound db
    → Keeps (delete_group token org_id group_id db)
unfolding delete_group drop_members
delete_group-Keeps token org_id group_id db v =
    Succeeds-bind Asked Sound (require_org_admin db token) _ (require_org_admin-Asked db token v)
      λ r a. Succeeds-raise_if Sound _ 403 _ _ λ _.
        Succeeds-then Sound (get_group r.1 org_id group_id) _
          λ group. Succeeds-ok Sound _ (regroup-IsSound _ _ r.1 a.sound)

add_members-IsSound :
    (org_id group_id : ℕ) (user_ids : List ℕ) (db : Db)
    → IsSound db
    → Succeeds IsSound (add_members org_id group_id user_ids db)
unfolding add_members
add_members-IsSound org_id group_id [] db v = Succeeds-ok IsSound db v
add_members-IsSound org_id group_id (u ∷ us) db v =
    Succeeds-or_raise IsSound (get_membership db u org_id) 422 _ _ λ m _.
      Succeeds-raise_if IsSound _ 500 _ _
        λ _. add_members-IsSound org_id group_id us _ (regroup-IsSound db.groups _ db v)

pub set_group_members-Keeps :
    (token : Option ℕ) (org_id group_id : ℕ) (user_ids : List ℕ) (db : Db)
    → IsSound db
    → Keeps (set_group_members token org_id group_id user_ids db)
unfolding set_group_members drop_members
set_group_members-Keeps token org_id group_id user_ids db v =
    Succeeds-bind Asked Sound (require_org_admin db token) _ (require_org_admin-Asked db token v)
      λ r a. Succeeds-raise_if Sound _ 403 _ _ λ _.
        Succeeds-then Sound (get_group r.1 org_id group_id) _ λ group.
          Succeeds-bind IsSound Sound (add_members org_id group_id user_ids _) _
            (add_members-IsSound org_id group_id user_ids _
              (regroup-IsSound r.1.groups _ r.1 a.sound))
            λ db' sound. Succeeds-ok Sound _ sound
