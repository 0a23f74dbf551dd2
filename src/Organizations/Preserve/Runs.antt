-- ===== src/Organizations/Preserve/Runs.antt =====
-- What any sequence of the requests of server/app/api/organizations.py makes of the tables.
use corella.Prelude.{ℕ, Option, List, [], ◌∷◌}
use corella.Http.{Result, after, Succeeds, Succeeds-after}
use corella.Organizations.Model.{Db, Settings, AuthContext}
use corella.Organizations.Deps.{get_auth_context}
use corella.Organizations.Requests.{
  Action, Request, get_optional_user, settled, act, step, run, renames, deletes, creates_member,
  updates_member, removes_member, transfers, leaves, creates_invite, resends_invite, revokes_invite,
  creates_group, deletes_group, sets_group_members, registers, creates_org, switches, accepts, acts,
}
use corella.Organizations.Tables.{IsSound}
use corella.Organizations.Preserve.Asking.{Asked, get_auth_context-Asked}
use corella.Organizations.Preserve.Accounts.{
  Keeps, register-Keeps, create_org-Keeps, switch_current_org-Keeps,
}
use corella.Organizations.Preserve.Members.{rename_org-Keeps, delete_org-Keeps, create_member-Keeps}
use corella.Organizations.Preserve.Roles.{
  update_member-Keeps, remove_member-Keeps, transfer_ownership-Keeps, leave_org-Keeps,
}
use corella.Organizations.Preserve.Invites.{
  create_invite-Keeps, resend_invite-Keeps, revoke_invite-Keeps, accept_invite-Keeps,
}
use corella.Organizations.Preserve.Groups.{
  create_group-Keeps, delete_group-Keeps, set_group_members-Keeps,
}

after-IsSound :
    {A : Type 0} (db : Db) (r : Result (A × Db)) → IsSound db → Keeps r → IsSound (after db r)
after-IsSound db r v k = Succeeds-after IsSound db r v k

Asked-Keeps : (r : Result (AuthContext × Db)) → Succeeds Asked r → Keeps r
unfolding Succeeds
Asked-Keeps (Result.ok asked) a = a.sound
Asked-Keeps (Result.http_exception status detail) a = tt

settled-IsSound : (db : Db) (token : Option ℕ) → IsSound db → IsSound (settled db token)
unfolding settled
settled-IsSound db token v =
    after-IsSound db (get_auth_context db token) v
      (Asked-Keeps (get_auth_context db token) (get_auth_context-Asked db token v))

module _ (settings : Settings) (hash : ℕ → ℕ) where
  acted-IsSound :
      {A : Type 0} (token : Option ℕ) (db : Db) (r : Result (A × Db))
      → IsSound db
      → Keeps r
      → IsSound (after (settled db token) r)
  acted-IsSound token db r v k = after-IsSound (settled db token) r (settled-IsSound db token v) k

  act-IsSound :
      (token : Option ℕ) (action : Action) (db : Db)
      → IsSound db
      → IsSound (act settings hash token action db)
  unfolding act
  act-IsSound token (renames o name) db v =
      acted-IsSound token db _ v (rename_org-Keeps token o name db v)
  act-IsSound token (deletes o) db v = acted-IsSound token db _ v (delete_org-Keeps token o db v)
  act-IsSound token (creates_member o email full_name role) db v =
      acted-IsSound token db _ v (create_member-Keeps settings token o email full_name role db v)
  act-IsSound token (updates_member o u role) db v =
      acted-IsSound token db _ v (update_member-Keeps token o u role db v)
  act-IsSound token (removes_member o u) db v =
      acted-IsSound token db _ v (remove_member-Keeps token o u db v)
  act-IsSound token (transfers o u) db v =
      acted-IsSound token db _ v (transfer_ownership-Keeps token o u db v)
  act-IsSound token (leaves o) db v = acted-IsSound token db _ v (leave_org-Keeps token o db v)
  act-IsSound token (creates_invite now raw o email role) db v =
      acted-IsSound token db _ v (create_invite-Keeps hash settings now raw token o email role db v)
  act-IsSound token (resends_invite now raw o i) db v =
      acted-IsSound token db _ v (resend_invite-Keeps hash settings now raw token o i db v)
  act-IsSound token (revokes_invite o i) db v =
      acted-IsSound token db _ v (revoke_invite-Keeps token o i db v)
  act-IsSound token (creates_group o name) db v =
      acted-IsSound token db _ v (create_group-Keeps token o name db v)
  act-IsSound token (deletes_group o g) db v =
      acted-IsSound token db _ v (delete_group-Keeps token o g db v)
  act-IsSound token (sets_group_members o g us) db v =
      acted-IsSound token db _ v (set_group_members-Keeps token o g us db v)

  step-IsSound : (r : Request) (db : Db) → IsSound db → IsSound (step settings hash r db)
  unfolding step
  step-IsSound (registers email full_name) db v =
      after-IsSound db _ v (register-Keeps settings email full_name db v)
  step-IsSound (creates_org token name) db v =
      after-IsSound db _ v (create_org-Keeps settings token name db v)
  step-IsSound (switches token o) db v =
      after-IsSound db _ v (switch_current_org-Keeps token o db v)
  step-IsSound (accepts now raw password full_name token) db v =
      after-IsSound db _ v
        (accept_invite-Keeps hash now raw password full_name (get_optional_user db token) db v)
  step-IsSound (acts token action) db v = act-IsSound token action db v

  -- From sound tables, after any sequence of requests, refused ones included, the tables are sound: every
  -- organization has exactly one owner, nobody has two memberships in one, nobody is a member or an
  -- invitee of one that does not exist, nobody is invited as an owner, an e-mail has at most one account
  -- and at most one open invite to an organization, no two accounts have one id, and no account or
  -- organization has the next one.
  pub run-IsSound : (rs : List Request) (db : Db) → IsSound db → IsSound (run settings hash rs db)
  unfolding run
  run-IsSound [] db v = v
  run-IsSound (r ∷ rs) db v = run-IsSound rs (step settings hash r db) (step-IsSound r db v)
