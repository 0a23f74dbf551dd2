-- ===== src/Organizations/Model.antt =====
-- The tables of server/app/models/organization.py, user.py and group.py, as lists of rows in the order
-- of `created_at`. Ids are numbers, and `next_id` is the next one that `uuid4` has not given out.
-- Passwords and the columns that no operation here reads are left out.
use corella.Prelude.{ℕ, Bool, true, false, Option, none, some, List, ◌&&◌, ◌==◌, Text}

pub data OrgRole : Type 0 where
  owner admin member : OrgRole

abbrev pub is_owner : OrgRole → Bool
is_owner owner = true
is_owner admin = false
is_owner member = false

-- `role in (OrgRole.OWNER, OrgRole.ADMIN)`
abbrev pub is_admin : OrgRole → Bool
is_admin owner = true
is_admin admin = true
is_admin member = false

pub record User : Type 0 where
  pub id : ℕ
  pub email : Text
  pub full_name : Text
  pub is_super_admin : Bool
  pub active_organization_id : Option ℕ

pub record Organization : Type 0 where
  pub id : ℕ
  pub name : Text
  pub is_instance_org : Bool

pub record OrganizationMembership : Type 0 where
  pub user_id : ℕ
  pub organization_id : ℕ
  pub role : OrgRole

-- `accepted_at` is the time of acceptance, if there was one.
pub record OrganizationInvite : Type 0 where
  pub id : ℕ
  pub organization_id : ℕ
  pub email : Text
  pub role : OrgRole
  pub token_hash : ℕ
  pub expires_at : ℕ
  pub invited_by_id : ℕ
  pub accepted_at : Option ℕ

pub record Group : Type 0 where
  pub id : ℕ
  pub organization_id : ℕ
  pub name : Text

pub record GroupMembership : Type 0 where
  pub user_id : ℕ
  pub group_id : ℕ

pub record Db : Type 0 where
  pub users : List User
  pub organizations : List Organization
  pub memberships : List OrganizationMembership
  pub invites : List OrganizationInvite
  pub groups : List Group
  pub group_memberships : List GroupMembership
  pub next_id : ℕ

-- The settings that the operations read (server/app/core/config.py).
pub record Settings : Type 0 where
  pub allow_public_registration : Bool
  pub max_orgs_per_user : ℕ
  pub invite_expire_days : ℕ

-- `AuthContext` of server/app/api/deps.py, without the API key.
pub record AuthContext : Type 0 where
  pub user : User
  pub organization : Organization
  pub membership : OrganizationMembership

-- The keys by which the queries select rows.
abbrev pub is_user : ℕ → User → Bool
is_user u r = r.id == u

abbrev pub is_organization : ℕ → Organization → Bool
is_organization o r = r.id == o

abbrev pub is_membership : ℕ → ℕ → OrganizationMembership → Bool
is_membership u o r = r.user_id == u && r.organization_id == o

abbrev pub is_ownership : ℕ → OrganizationMembership → Bool
is_ownership o r = r.organization_id == o && is_owner r.role

abbrev pub is_group : ℕ → Group → Bool
is_group g r = r.id == g

abbrev pub is_some_id : ℕ → Option ℕ → Bool
is_some_id o none = false
is_some_id o (some p) = p == o
