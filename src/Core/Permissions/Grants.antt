-- ===== src/Core/Permissions/Grants.antt =====
-- What grants can and cannot change.
use aegis_private_browser.Prelude.{
  ◌≡◌, ◌↔◌, true, false, Option, none, some, List, [], ◌∷◌, String, refl, ap, ◌∙◌, eq_iff,
  Bool-cases, inl, inr, lookup, lookup-insert, insert, if◌then◌else◌, string_eq, Result, ok, err,
  arith, str_eq, ◌&&◌,
}
use aegis_private_browser.Core.Error.{Error}
use aegis_private_browser.Core.Permissions
use aegis_private_browser.Core.Permissions.{
  feature_eq, Feature, PermissionState, PermissionPolicy, secure_default, effective, grant,
  is_hard_blocked, clear_grants, granted_state, or_default, or_block, override,
}

lookup-or_default :
    (asked : Feature) (grants : Option (List (Feature × PermissionState)))
    → lookup asked (or_default grants) ≡ override grants asked
unfolding lookup
lookup-or_default asked none = refl
lookup-or_default asked (some grants) = refl

override-insert :
    (m : List (String × List (Feature × PermissionState))) (origin other : String)
    (feature asked : Feature) (s : PermissionState)
    → override
        (lookup other (insert origin (insert feature s (or_default (lookup origin m))) m))
        asked
      ≡ (if str_eq origin other && Permissions.eq feature asked
          then some s
          else override (lookup other m) asked)
override-insert m origin other feature asked s = elim (Bool-cases (str_eq origin other)) [
  | inr differ ↦ rw (lookup-insert, differ)
  | inl same ↦
      let e : origin ≡ other = (eq_iff origin other).0 same in
      rw (lookup-insert, same)
        (rw (lookup-insert feature asked s (or_default (lookup origin m)))
          (rw (lookup-or_default asked (lookup origin m), e)))
]

pub effective-grant :
    (p q : PermissionPolicy) (origin other : String) (feature asked : Feature)
    → grant p origin feature ≡ ok q
    → effective q other asked ≡ (
        if str_eq origin other && Permissions.eq feature asked
        then granted_state feature
        else effective p other asked)
unfolding grant effective
effective-grant p q origin other feature asked h =
    ground (arith, override-insert p.overrides origin other feature asked (granted_state feature))

-- A grant is refused exactly for a hard-blocked device class, at every origin.
pub grant-eq-err_iff :
    (p : PermissionPolicy) (origin : String) (feature : Feature)
    → (grant p origin feature ≡ err Error.precondition) ↔ (is_hard_blocked feature ≡ true)
unfolding grant
grant-eq-err_iff p origin feature = ground arith

-- A sequence of grants; a refused one changes nothing.
abbrev or_keep : PermissionPolicy → Result PermissionPolicy Error → PermissionPolicy
or_keep p (ok q) = q
or_keep p (err e) = p

pub grant_all : List (String × Feature) → PermissionPolicy → PermissionPolicy
grant_all [] p = p
grant_all ((origin, feature) ∷ more) p = grant_all more (or_keep p (grant p origin feature))

hard_blocked_ne :
    (p q : PermissionPolicy) (origin : String) (asked feature : Feature)
    → grant p origin asked ≡ ok q
    → is_hard_blocked feature ≡ true
    → Permissions.eq asked feature ≡ false
unfolding grant
hard_blocked_ne p q origin asked feature g h = ground arith

effective-or_keep :
    (p : PermissionPolicy) (r : Result PermissionPolicy Error) (at origin : String)
    (asked feature : Feature)
    → grant p at asked ≡ r
    → is_hard_blocked feature ≡ true
    → effective (or_keep p r) origin feature ≡ effective p origin feature
effective-or_keep p (err e) at origin asked feature g h = refl
effective-or_keep p (ok q) at origin asked feature g h =
    ground
      (arith, effective-grant p q at origin asked feature, hard_blocked_ne p q at asked feature)

effective-grant_all :
    (requests : List (String × Feature)) (p : PermissionPolicy) (origin : String)
    (feature : Feature)
    → is_hard_blocked feature ≡ true
    → effective (grant_all requests p) origin feature ≡ effective p origin feature
unfolding grant_all
effective-grant_all [] p origin feature h = refl
effective-grant_all ((at, asked) ∷ more) p origin feature h =
    effective-grant_all more (or_keep p (grant p at asked)) origin feature h
    ∙ effective-or_keep p (grant p at asked) at origin asked feature refl h

-- From the secure default table, whatever grants are asked for and in whatever order, a
-- hard-blocked device class stays blocked at every origin.
pub hard_blocked_stays :
    (requests : List (String × Feature)) (origin : String) (feature : Feature)
    → is_hard_blocked feature ≡ true
    → effective (grant_all requests secure_default) origin feature ≡ PermissionState.block
unfolding effective is_hard_blocked lookup
hard_blocked_stays requests origin feature h =
    effective-grant_all requests secure_default origin feature h ∙ ground arith

defaults-grant_all :
    (requests : List (String × Feature)) (p : PermissionPolicy)
    → (grant_all requests p).defaults ≡ p.defaults
unfolding grant_all grant
defaults-grant_all [] p = refl
defaults-grant_all ((origin, feature) ∷ more) p =
    defaults-grant_all more (or_keep p (grant p origin feature)) ∙ ground arith

-- Clearing the grants of any policy, after any sequence of grants, gives every feature at every
-- origin the state that the table of defaults had before, or `Block` where it has none: neither a
-- grant nor an override that was there before is left.
pub effective-clear_grants :
    (requests : List (String × Feature)) (p : PermissionPolicy) (origin : String)
    (feature : Feature)
    → effective (clear_grants (grant_all requests p)) origin feature
      ≡ or_block (lookup feature p.defaults)
unfolding effective lookup
effective-clear_grants requests p origin feature =
    ap (λ d. or_block (lookup feature d)) (defaults-grant_all requests p)
