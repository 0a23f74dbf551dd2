-- ===== src/Organizations/Deps.antt =====
-- server/app/api/deps.py: who is asking, in which organization, and what it may do there.
use corella.Prelude.{ℕ, not, Option, some, find}
use corella.Http.{Result, ok, ◌>>=◌, ◌>>◌, raise_if, or_raise}
use corella.Organizations.Model.{User, Db, AuthContext, is_user}
use corella.Organizations.Service.{is_org_owner, is_org_admin, resolve_active_membership}

-- The token is decoded by a library; what comes out is an id, or nothing.
unfoldable pub get_current_user : Db → Option ℕ → Result User
unfolding ◌>>=◌ or_raise
get_current_user db token = do
  user_id ← or_raise token 401 "Could not validate credentials"
  or_raise (find (is_user user_id) db.users) 401 "Could not validate credentials"

-- With the commit of an active organization that had to be picked.
unfoldable pub get_auth_context : Db → Option ℕ → Result (AuthContext × Db)
unfolding get_current_user
get_auth_context db token = do
  user ← get_current_user db token
  resolved ←
      or_raise (resolve_active_membership db user) 403 "You are not a member of any organization"
  -- The organization is the active one now, stored or picked.
  let user' : User = record user { active_organization_id = some resolved.0.id }
  ok (record { user = user'; organization = resolved.0; membership = resolved.1 }, resolved.2)

unfoldable pub require_super_admin : Db → Option ℕ → Result User
unfolding get_current_user raise_if
require_super_admin db token = do
  user ← get_current_user db token
  raise_if (not user.is_super_admin) 403 "Super-admin privileges required"
  ok user

unfoldable pub require_org_admin : Db → Option ℕ → Result (AuthContext × Db)
unfolding get_auth_context is_org_admin raise_if
require_org_admin db token = do
  ctx ← get_auth_context db token
  raise_if (not (is_org_admin ctx.0)) 403 "Organization admin privileges required"
  ok ctx

unfoldable pub require_org_owner : Db → Option ℕ → Result (AuthContext × Db)
unfolding get_auth_context is_org_owner raise_if
require_org_owner db token = do
  ctx ← get_auth_context db token
  raise_if (not (is_org_owner ctx.0)) 403 "Organization owner privileges required"
  ok ctx
