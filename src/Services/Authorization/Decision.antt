-- ===== src/Services/Authorization/Decision.antt =====
-- Who `require_workspace_role` and `require_scan_access` (apps/api/kerislab/services.py) let
-- through.
use kerislab.Services.Authorization.{
  require_scan_access, require_workspace_role, require_workspace_member, workspace_membership,
  same_role,
}
use kerislab.Prelude.{
  ◌⊎◌, Among, String, List, Bool, ◌≡◌, Option-cases, inl, inr, some, Bool-cases, any, refl,
  first-holds, ◌==◌, ◌&&◌, arith, eq_iff, true, first, if◌then◌else◌, ◌∷◌, Among-any, any-Among,
  sym, eq_refl, [], ◌∙◌, ap, false,
}
use kerislab.Models.Scanning.{Scan}
use kerislab.Models.Status.{Role}
use kerislab.Store.State.{Store}
use kerislab.Exec.{World, ok, returned}
use kerislab.Dict.{lookup, values}
use kerislab.Models.Identity.{WorkspaceMembership}
use kerislab.Models.Values.{role_value}

-- `m` is the first of the memberships that is one of the user in the workspace.
pub data FirstFor (user_id workspace_id : String) (m : WorkspaceMembership)
    : List WorkspaceMembership → Type 0 where
  here_for :
      (rest : List WorkspaceMembership)
      → m.user_id ≡ user_id
      → m.workspace_id ≡ workspace_id
      → FirstFor user_id workspace_id m (m ∷ rest)
  later_for :
      (other : WorkspaceMembership) (rest : List WorkspaceMembership)
      → ¬ ((other.user_id ≡ user_id) × (other.workspace_id ≡ workspace_id))
      → FirstFor user_id workspace_id m rest
      → FirstFor user_id workspace_id m (other ∷ rest)

abbrev role_named : String → Role
role_named text =
    if text == "owner"
    then Role.owner
    else if text == "admin"
    then Role.admin
    else if text == "security_lead"
    then Role.security_lead
    else if text == "pentester"
    then Role.pentester
    else if text == "developer"
    then Role.developer
    else Role.auditor

role_named-role_value : (role : Role) → role_named (role_value role) ≡ role
unfolding role_value
role_named-role_value Role.owner = refl
role_named-role_value Role.admin = refl
role_named-role_value Role.security_lead = refl
role_named-role_value Role.pentester = refl
role_named-role_value Role.developer = refl
role_named-role_value Role.auditor = refl

same_role-equal : (a b : Role) → same_role a b ≡ true → a ≡ b
unfolding same_role
same_role-equal a b h =
    sym (role_named-role_value a)
    ∙ ap role_named ((eq_iff (role_value a) (role_value b)).0 h)
    ∙ role_named-role_value b

same_role_refl : (a : Role) → same_role a a ≡ true
unfolding same_role
same_role_refl a = eq_refl (role_value a)

module _ (user_id workspace_id : String) where
  abbrev is_of : WorkspaceMembership → Bool
  is_of m = m.user_id == user_id && m.workspace_id == workspace_id

  is_of_lem :
      (m : WorkspaceMembership)
      → is_of m ≡ true
      → (m.user_id ≡ user_id) × (m.workspace_id ≡ workspace_id)
  is_of_lem m h = ground (arith, eq_iff m.user_id user_id, eq_iff m.workspace_id workspace_id, h)

  of-is_of :
      (m : WorkspaceMembership)
      → m.user_id ≡ user_id
      → m.workspace_id ≡ workspace_id
      → is_of m ≡ true
  of-is_of m own at = rw (own, at, eq_refl user_id, eq_refl workspace_id) refl

  first-FirstFor :
      (m : WorkspaceMembership) (ms : List WorkspaceMembership)
      → first is_of ms ≡ some m
      → FirstFor user_id workspace_id m ms
  unfolding first
  first-FirstFor m [] h = cc
  first-FirstFor m (x ∷ xs) h = elim (Bool-cases (is_of x)) [
    | inl hit ↦
        let found : some x ≡ some m = rw hit at h in
        let same : x ≡ m = cc in
        let (own, at) = is_of_lem x hit in rw same (here_for xs (rw same at own) (rw same at at))
    | inr miss ↦
        later_for x xs (λ is. let hit = of-is_of x is.0 is.1 in cc)
          (first-FirstFor m xs (rw miss at h))
  ]

  FirstFor-first :
      (m : WorkspaceMembership) (ms : List WorkspaceMembership)
      → FirstFor user_id workspace_id m ms
      → first is_of ms ≡ some m
  unfolding first
  FirstFor-first m [] leads = elim leads [ ]
  FirstFor-first m (x ∷ xs) (here_for _ own at) = rw (of-is_of m own at) refl
  FirstFor-first m (x ∷ xs) (later_for _ _ not_of leads) = elim (Bool-cases (is_of x)) [
    | inl hit ↦ elim (not_of (is_of_lem x hit)) [ ]
    | inr miss ↦ rw miss (FirstFor-first m xs leads)
  ]

same_role-Among :
    (role : Role) (roles : List Role) → any (same_role role) roles ≡ true → Among role roles
same_role-Among role roles h =
    let (found, among, same) = any-Among (same_role role) roles h in
    rw (same_role-equal role found same) among

-- A role that is among the allowed ones passes the test of the roles.
Among-same_role :
    (role : Role) (roles : List Role) → Among role roles → any (same_role role) roles ≡ true
Among-same_role role roles among = Among-any (same_role role) roles role among (same_role_refl role)

-- The check for some roles returns the first membership of the user in the workspace, whose role is among them; or it
-- raises, and the user has no such membership or the first one has another role. It changes nothing.
pub require_workspace_role_lem :
    (user_id workspace_id : String) (allowed_roles : List Role) (w : World)
    → (((m : WorkspaceMembership) × ((require_workspace_role user_id workspace_id allowed_roles w).0
            ≡ ok m)
          × FirstFor user_id workspace_id m (values w.store.memberships)
          × Among m.role allowed_roles)
        ⊎ ((returned (require_workspace_role user_id workspace_id allowed_roles w).0 ≡ false)
            × ¬ (
                (m : WorkspaceMembership) × FirstFor user_id workspace_id m
                  (values w.store.memberships)
                × Among m.role allowed_roles)))
      × ((require_workspace_role user_id workspace_id allowed_roles w).1 ≡ w)
unfolding require_workspace_role require_workspace_member workspace_membership
require_workspace_role_lem user_id workspace_id allowed_roles w =
    let ms = values w.store.memberships in
    elim (Option-cases (first (is_of user_id workspace_id) ms)) [
      | inl e ↦ rw e (
        inr (refl, λ has. let h = FirstFor-first user_id workspace_id has.0 ms has.1 in cc),
        refl,
      )
      | inr (m, e) ↦ elim (Bool-cases (any (same_role m.role) allowed_roles)) [
        | inl has ↦
            rw (e, has)
              (
                inl (
                  m,
                  refl,
                  first-FirstFor user_id workspace_id m ms e,
                  same_role-Among m.role allowed_roles has,
                ),
                refl,
              )
        | inr has_not ↦
            rw (e, has_not)
              (
                inr (
                  refl,
                  λ other.
                      let h = FirstFor-first user_id workspace_id other.0 ms other.1 in
                      let same : other.0 ≡ m = cc in
                      let k = Among-same_role m.role allowed_roles (rw same at other.2) in cc,
                ),
                refl,
              )
      ]
    ]

membership-owner :
    (user_id workspace_id : String) (m : WorkspaceMembership) (s : Store)
    → workspace_membership user_id workspace_id s ≡ some m
    → (m.user_id ≡ user_id) × (m.workspace_id ≡ workspace_id)
unfolding workspace_membership
membership-owner user_id workspace_id m s h =
    let passes =
      first-holds
        (λ (m : WorkspaceMembership). m.user_id == user_id && m.workspace_id == workspace_id)
        (values s.memberships) m h in
    ground (arith, eq_iff m.user_id user_id, eq_iff m.workspace_id workspace_id, passes)

-- A user who gets access to a scan has a membership in the workspace of that scan, which is the stored one.
pub require_scan_access-member :
    (user_id scan_id : String) (scan : Scan) (w : World)
    → (require_scan_access user_id scan_id w).0 ≡ ok scan
    → (lookup scan_id w.store.scans ≡ some scan)
      × ((m : WorkspaceMembership) × (workspace_membership user_id scan.workspace_id w.store
            ≡ some m)
          × (m.user_id ≡ user_id)
          × (m.workspace_id ≡ scan.workspace_id))
unfolding require_scan_access require_workspace_member
require_scan_access-member user_id scan_id scan w returns =
    elim (Option-cases (lookup scan_id w.store.scans)) [
      | inl e ↦ let h = rw e at returns in cc
      | inr (stored, e) ↦
          elim (Option-cases (workspace_membership user_id stored.workspace_id w.store)) [
            | inl f ↦ let h = rw (e, f) at returns in cc
            | inr (m, f) ↦
                let h = rw (e, f) at returns in
                let same : stored ≡ scan = cc in
                let (own, at) = membership-owner user_id stored.workspace_id m w.store f in
                rw (← same) (e, (m, f, own, at))
          ]
    ]
