-- ===== src/Core/Update/Order.antt =====
-- The order of versions, which the protection against downgrades rests on.
use aegis_private_browser.Prelude.{
  ◌≡◌, ◌↔◌, subst, ℕ, zero, suc, ◌+◌, ◌-◌, ◌==◌, true, Bool-cases, inl, inr, arith,
}
use aegis_private_browser.Core.Update.{Version, is_newer_than}

abbrev pub version : ℕ → ℕ → ℕ → Version
version a b c = record { major = a; minor = b; patch = c }

-- A release of the version: the next patch, or the next minor or major version with any components
-- after it.
pub data Release : Version → Version → Type 0 where
  next_patch : (a b c : ℕ) → Release (version a b c) (version a b (c + 1))
  next_minor : (a b c d : ℕ) → Release (version a b c) (version a (b + 1) d)
  next_major : (a b c d e : ℕ) → Release (version a b c) (version (a + 1) d e)

-- One release or several, one after the other.
pub data Upgrade : Version → Version → Type 0 where
  once : {v w : Version} → Release v w → Upgrade v w
  after : {v u w : Version} → Release v u → Upgrade u w → Upgrade v w

newer_trans :
    (u v w : Version)
    → is_newer_than u v ≡ true
    → is_newer_than v w ≡ true
    → is_newer_than u w ≡ true
unfolding is_newer_than
newer_trans u v w h k = ground arith

Release-newer : {v w : Version} → Release v w → is_newer_than w v ≡ true
unfolding is_newer_than
Release-newer (next_patch a b c) = ground arith
Release-newer (next_minor a b c d) = ground arith
Release-newer (next_major a b c d e) = ground arith

Upgrade-newer : {v w : Version} → Upgrade v w → is_newer_than w v ≡ true
Upgrade-newer (once r) = Release-newer r
Upgrade-newer {v} {w} (after {u = u} r more) =
    newer_trans w u v (Upgrade-newer more) (Release-newer r)

patches : (k a b c : ℕ) → Upgrade (version a b c) (version a b (c + 1 + k))
patches zero a b c =
    subst (λ n. Upgrade (version a b c) (version a b n)) (omega arith) (once (next_patch a b c))
patches (suc k) a b c =
    subst (λ n. Upgrade (version a b c) (version a b n)) (omega arith)
      (after (next_patch a b c) (patches k a b (c + 1)))

minors : (k a b c d : ℕ) → Upgrade (version a b c) (version a (b + 1 + k) d)
minors zero a b c d =
    subst (λ n. Upgrade (version a b c) (version a n d)) (omega arith) (once (next_minor a b c d))
minors (suc k) a b c d =
    subst (λ n. Upgrade (version a b c) (version a n d)) (omega arith)
      (after (next_minor a b c 0) (minors k a (b + 1) 0 d))

majors : (k a b c d e : ℕ) → Upgrade (version a b c) (version (a + 1 + k) d e)
majors zero a b c d e =
    subst (λ n. Upgrade (version a b c) (version n d e)) (omega arith) (once (next_major a b c d e))
majors (suc k) a b c d e =
    subst (λ n. Upgrade (version a b c) (version n d e)) (omega arith)
      (after (next_major a b c 0 0) (majors k (a + 1) 0 0 d e))

newer-Upgrade : (v w : Version) → is_newer_than w v ≡ true → Upgrade v w
unfolding is_newer_than
newer-Upgrade v w h = elim (Bool-cases (w.major == v.major)) [
  | inr differ ↦
      subst (λ n. Upgrade v (version n w.minor w.patch)) (ground arith)
        (majors (w.major - v.major - 1) v.major v.minor v.patch w.minor w.patch)
  | inl same ↦ elim (Bool-cases (w.minor == v.minor)) [
    | inr differ ↦
        let e : v.major ≡ w.major = ground arith in
        subst (λ m. Upgrade v (version m w.minor w.patch)) e
          (subst (λ n. Upgrade v (version v.major n w.patch)) (ground arith)
            (minors (w.minor - v.minor - 1) v.major v.minor v.patch w.patch))
    | inl same_minor ↦
        let e : v.major ≡ w.major = ground arith in
        let f : v.minor ≡ w.minor = ground arith in
        subst (λ m. Upgrade v (version m w.minor w.patch)) e
          (subst (λ n. Upgrade v (version v.major n w.patch)) f
            (subst (λ n. Upgrade v (version v.major v.minor n)) (ground arith)
              (patches (w.patch - v.patch - 1) v.major v.minor v.patch)))
  ]
]

-- A version is newer than another exactly when one comes from the other by a sequence of releases,
-- at least one, each of which raises the patch, or raises the minor or the major version by one and
-- takes any components after it.
pub is_newer_than-Upgrade_iff : (v w : Version) → (is_newer_than w v ≡ true) ↔ Upgrade v w
is_newer_than-Upgrade_iff v w = (newer-Upgrade v w, Upgrade-newer)
