-- ===== src/Http/Keeps.antt =====
-- The world behind the guards of the handlers in apps/api/kerislab/main.py, and the books behind a
-- handler.
pub mod Scans
pub mod Rest
pub mod Profiles
pub mod Logins
pub mod Requests
pub mod Explained
pub mod Entities
use kerislab.Store.Collections.{Collection}
use kerislab.Services.Bystanders.{Kept}
use kerislab.Http.{require_workspace_access, require_role}
use kerislab.Services.Authorization.{
  require_scan_access, require_workspace_member, require_workspace_role, workspace_membership,
  same_role,
}
use kerislab.Exec.{Result, World, Exec, proceed, ok, err, at}
use kerislab.Prelude.{String, List, ◌≡◌, Option-cases, inl, inr, Bool-cases, refl, any}
use kerislab.Models.Status.{Role}
use kerislab.Dict.{lookup}

pub require_workspace_access-world :
    (user_id workspace_id : String) (w : World)
    → (require_workspace_access user_id workspace_id w).1 ≡ w
unfolding require_workspace_access require_workspace_member
require_workspace_access-world user_id workspace_id w =
    elim (Option-cases (workspace_membership user_id workspace_id w.store)) [
      | inl e ↦ rw e refl
      | inr (m, e) ↦ rw e refl
    ]

pub require_scan_access-world :
    (user_id scan_id : String) (w : World) → (require_scan_access user_id scan_id w).1 ≡ w
unfolding require_scan_access require_workspace_member
require_scan_access-world user_id scan_id w = elim (Option-cases (lookup scan_id w.store.scans)) [
  | inl e ↦ rw e refl
  | inr (scan, e) ↦ elim (Option-cases (workspace_membership user_id scan.workspace_id w.store)) [
    | inl f ↦ rw (e, f) refl
    | inr (m, f) ↦ rw (e, f) refl
  ]
]

pub require_role-world :
    (user_id workspace_id : String) (roles : List Role) (w : World)
    → (require_role user_id workspace_id roles w).1 ≡ w
unfolding require_role require_workspace_role require_workspace_member
require_role-world user_id workspace_id roles w =
    elim (Option-cases (workspace_membership user_id workspace_id w.store)) [
      | inl e ↦ rw e refl
      | inr (m, e) ↦ elim (Bool-cases (any (same_role m.role) roles)) [
        | inl has ↦ rw (e, has) refl
        | inr has_not ↦ rw (e, has_not) refl
      ]
    ]

pub access-Kept :
    (user_id workspace_id : String) (w : World)
    → Kept w
    → Kept (require_workspace_access user_id workspace_id w).1
access-Kept user_id workspace_id w b = rw (require_workspace_access-world user_id workspace_id w) b

pub scan_access-Kept :
    (user_id scan_id : String) (w : World) → Kept w → Kept (require_scan_access user_id scan_id w).1
scan_access-Kept user_id scan_id w b = rw (require_scan_access-world user_id scan_id w) b

pub role-Kept :
    (user_id workspace_id : String) (roles : List Role) (w : World)
    → Kept w
    → Kept (require_role user_id workspace_id roles w).1
role-Kept user_id workspace_id roles w b = rw (require_role-world user_id workspace_id roles w) b

pub at-world : {V : Type 0} (c : Collection V) (key : String) (w : World) → (at c key w).1 ≡ w
at-world c key w = elim (Option-cases (lookup key (c.read w.store))) [
  | inl e ↦ rw e refl
  | inr (v, e) ↦ rw e refl
]

-- Behind a guard that changes nothing.
pub behind-Kept :
    {A B : Type 0} (p : Result A × World) (f : A → Exec B) (w : World)
    → p.1 ≡ w
    → Kept w
    → ((a : A) → Kept (f a w).1)
    → Kept (proceed p f).1
behind-Kept (ok a, v) f w same b k = rw same (k a)
behind-Kept (err e, v) f w same b k = rw same b
