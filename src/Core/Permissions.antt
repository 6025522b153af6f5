-- ===== src/Core/Permissions.antt =====
-- crates/aegis-core/src/permissions.rs. A `BTreeMap` is an association list.
pub mod Grants
use aegis_private_browser.Prelude.{
  ℕ, ◌==◌, ◌≡◌, ◌↔◌, Bool, true, false, Option, none, some, List, [], ◌∷◌, String, Eq, lookup,
  insert, string_eq, if◌then◌else◌, Result, ok, err, arith,
}
use aegis_private_browser.Core.Error.{Error}

pub data Feature : Type 0 where
  location camera microphone notifications clipboard_read usb bluetooth : Feature
  serial hid midi file_system_access autoplay downloads : Feature

-- The place of a feature in the source's list, for the derived `PartialEq`.
abbrev pub rank : Feature → ℕ
rank Feature.location = 0
rank Feature.camera = 1
rank Feature.microphone = 2
rank Feature.notifications = 3
rank Feature.clipboard_read = 4
rank Feature.usb = 5
rank Feature.bluetooth = 6
rank Feature.serial = 7
rank Feature.hid = 8
rank Feature.midi = 9
rank Feature.file_system_access = 10
rank Feature.autoplay = 11
rank Feature.downloads = 12

abbrev pub eq : Feature → Feature → Bool
eq a b = rank a == rank b

pub eq_iff : (a b : Feature) → (eq a b ≡ true) ↔ (a ≡ b)
eq_iff a b = ground arith

instance abbrev pub feature_eq : Eq Feature
feature_eq = record { beq = eq; beq_iff = eq_iff }

unfoldable pub is_hard_blocked : Feature → Bool
is_hard_blocked Feature.usb = true
is_hard_blocked Feature.bluetooth = true
is_hard_blocked Feature.serial = true
is_hard_blocked Feature.hid = true
is_hard_blocked Feature.midi = true
is_hard_blocked _ = false

pub data PermissionState : Type 0 where
  block ask allow confined_to_vm quarantine limited : PermissionState

pub record PermissionPolicy : Type 0 where
  pub defaults : List (Feature × PermissionState)
  pub overrides : List (String × List (Feature × PermissionState))

-- The inserts are in the order of the keys, so the table is the list itself.
abbrev pub secure_default : PermissionPolicy
secure_default = record {
  defaults =
      (Feature.location, PermissionState.block)
      ∷ (Feature.camera, PermissionState.block)
      ∷ (Feature.microphone, PermissionState.block)
      ∷ (Feature.notifications, PermissionState.ask)
      ∷ (Feature.clipboard_read, PermissionState.block)
      ∷ (Feature.usb, PermissionState.block)
      ∷ (Feature.bluetooth, PermissionState.block)
      ∷ (Feature.serial, PermissionState.block)
      ∷ (Feature.hid, PermissionState.block)
      ∷ (Feature.midi, PermissionState.block)
      ∷ (Feature.file_system_access, PermissionState.confined_to_vm)
      ∷ (Feature.autoplay, PermissionState.limited)
      ∷ (Feature.downloads, PermissionState.quarantine)
      ∷ [];
  overrides = [];
}

-- `.unwrap_or(PermissionState::Block)`
abbrev pub or_block : Option PermissionState → PermissionState
or_block none = PermissionState.block
or_block (some s) = s

abbrev override : Option (List (Feature × PermissionState)) → Feature → Option PermissionState
override none feature = none
override (some grants) feature = lookup feature grants

unfoldable pub effective : PermissionPolicy → String → Feature → PermissionState
effective p origin feature = elim (override (lookup origin p.overrides) feature) [
  | some state ↦ state
  | none ↦ or_block (lookup feature p.defaults)
]

abbrev pub granted_state : Feature → PermissionState
granted_state Feature.file_system_access = PermissionState.confined_to_vm
granted_state Feature.downloads = PermissionState.quarantine
granted_state _ = PermissionState.allow

-- `.entry(origin).or_default()`
abbrev or_default : Option (List (Feature × PermissionState)) → List (Feature × PermissionState)
or_default none = []
or_default (some grants) = grants

unfoldable pub grant : PermissionPolicy → String → Feature → Result PermissionPolicy Error
unfolding is_hard_blocked
grant p origin feature =
    if is_hard_blocked feature
    then err Error.precondition
    else ok (record p {
      overrides =
          insert origin
            (insert feature (granted_state feature) (or_default (lookup origin p.overrides)))
            p.overrides;
    })

abbrev pub clear_grants : PermissionPolicy → PermissionPolicy
clear_grants p = record p { overrides = [] }
