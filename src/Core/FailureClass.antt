-- ===== src/Core/FailureClass.antt =====
-- `FailureClass` of crates/aegis-core/src/error.rs
use aegis_private_browser.Prelude.{Bool, true, false, String}

pub data FailureClass : Type 0 where
  network_containment isolation cryptography integrity configuration : FailureClass
  precondition system internal : FailureClass

unfoldable pub requires_killswitch : FailureClass → Bool
requires_killswitch FailureClass.network_containment = true
requires_killswitch FailureClass.isolation = true
requires_killswitch _ = false

unfoldable pub is_retryable : FailureClass → Bool
is_retryable FailureClass.precondition = true
is_retryable FailureClass.system = true
is_retryable _ = false

-- `Display`
abbrev pub class_name : FailureClass → String
class_name FailureClass.network_containment = "network-containment"
class_name FailureClass.isolation = "isolation"
class_name FailureClass.cryptography = "cryptography"
class_name FailureClass.integrity = "integrity"
class_name FailureClass.configuration = "configuration"
class_name FailureClass.precondition = "precondition"
class_name FailureClass.system = "system"
class_name FailureClass.internal = "internal"
