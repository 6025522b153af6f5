-- ===== src/Core/Error.antt =====
-- `Error` of crates/aegis-core/src/error.rs. The texts that the variants carry are for people, and
-- no code branches on them: they are left out.
use aegis_private_browser.Prelude.{Bool}
use aegis_private_browser.Core.FailureClass
use aegis_private_browser.Core.FailureClass.{FailureClass}

pub data Error : Type 0 where
  network_containment isolation preflight crypto integrity config : Error
  precondition not_found busy unsupported system internal : Error

unfoldable pub class : Error → FailureClass
class Error.network_containment = FailureClass.network_containment
class Error.preflight = FailureClass.network_containment
class Error.isolation = FailureClass.isolation
class Error.crypto = FailureClass.cryptography
class Error.integrity = FailureClass.integrity
class Error.config = FailureClass.configuration
class Error.precondition = FailureClass.precondition
class Error.not_found = FailureClass.precondition
class Error.busy = FailureClass.precondition
class Error.unsupported = FailureClass.system
class Error.system = FailureClass.system
class Error.internal = FailureClass.internal

unfoldable pub requires_killswitch : Error → Bool
unfolding class FailureClass.requires_killswitch
requires_killswitch e = FailureClass.requires_killswitch (class e)
