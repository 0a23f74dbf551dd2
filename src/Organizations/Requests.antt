-- ===== src/Organizations/Requests.antt =====
-- The requests of server/app/api/organizations.py and `register` of server/app/api/auth.py that write,
-- and what a sequence of them makes of the tables.
use corella.Prelude.{ℕ, Bool, Option, none, some, List, [], ◌∷◌, find, Text}
use corella.Http.{after}
use corella.Organizations.Model.{OrgRole, User, Db, Settings, is_user}
use corella.Organizations.Deps.{get_auth_context}
use corella.Organizations.Members.{
  register, create_org, switch_current_org, rename_org, delete_org, create_member, update_member,
  remove_member, transfer_ownership, leave_org,
}
use corella.Organizations.Invites.{create_invite, resend_invite, revoke_invite, accept_invite}
use corella.Organizations.Groups.{create_group, delete_group, set_group_members}

-- `get_optional_user` of server/app/api/deps.py
unfoldable pub get_optional_user : Db → Option ℕ → Option User
get_optional_user db none = none
get_optional_user db (some user_id) = find (is_user user_id) db.users

-- A request of somebody in the active organization, with the token's user.
pub data Action : Type 0 where
  renames : ℕ → Text → Action
  deletes : ℕ → Action
  creates_member : ℕ → Text → Text → OrgRole → Action
  updates_member : ℕ → ℕ → Option OrgRole → Action
  removes_member : ℕ → ℕ → Action
  transfers : ℕ → ℕ → Action
  leaves : ℕ → Action
  creates_invite : ℕ → ℕ → ℕ → Text → OrgRole → Action
  resends_invite : ℕ → ℕ → ℕ → ℕ → Action
  revokes_invite : ℕ → ℕ → Action
  creates_group : ℕ → Text → Action
  deletes_group : ℕ → ℕ → Action
  sets_group_members : ℕ → ℕ → List ℕ → Action

pub data Request : Type 0 where
  registers : Text → Text → Request
  creates_org : Option ℕ → Text → Request
  switches : Option ℕ → ℕ → Request
  accepts : ℕ → ℕ → Bool → Text → Option ℕ → Request
  acts : Option ℕ → Action → Request

-- What `get_auth_context` has committed by the time its handler runs, if it lets it run at all.
unfoldable pub settled : Db → Option ℕ → Db
unfolding get_auth_context
settled db token = after db (get_auth_context db token)

module _ (settings : Settings) (hash : ℕ → ℕ) where
  unfoldable pub act : Option ℕ → Action → Db → Db
  act token (renames org_id name) db = after (settled db token) (rename_org token org_id name db)
  act token (deletes org_id) db = after (settled db token) (delete_org token org_id db)
  act token (creates_member org_id email full_name role) db =
      after (settled db token) (create_member settings token org_id email full_name role db)
  act token (updates_member org_id user_id role) db =
      after (settled db token) (update_member token org_id user_id role db)
  act token (removes_member org_id user_id) db =
      after (settled db token) (remove_member token org_id user_id db)
  act token (transfers org_id user_id) db =
      after (settled db token) (transfer_ownership token org_id user_id db)
  act token (leaves org_id) db = after (settled db token) (leave_org token org_id db)
  act token (creates_invite now raw org_id email role) db =
      after (settled db token) (create_invite hash settings now raw token org_id email role db)
  act token (resends_invite now raw org_id invite_id) db =
      after (settled db token) (resend_invite hash settings now raw token org_id invite_id db)
  act token (revokes_invite org_id invite_id) db =
      after (settled db token) (revoke_invite token org_id invite_id db)
  act token (creates_group org_id name) db =
      after (settled db token) (create_group token org_id name db)
  act token (deletes_group org_id group_id) db =
      after (settled db token) (delete_group token org_id group_id db)
  act token (sets_group_members org_id group_id user_ids) db =
      after (settled db token) (set_group_members token org_id group_id user_ids db)

  unfoldable pub step : Request → Db → Db
  unfolding act
  step (registers email full_name) db = after db (register settings email full_name db)
  step (creates_org token name) db = after db (create_org settings token name db)
  step (switches token org_id) db = after db (switch_current_org token org_id db)
  step (accepts now raw password full_name token) db =
      after db (accept_invite hash now raw password full_name (get_optional_user db token) db)
  step (acts token action) db = act token action db

  unfoldable pub run : List Request → Db → Db
  run [] db = db
  run (r ∷ rs) db = run rs (step r db)
