-- ===== src/Sd.antt =====
-- sd: the hosts of a backend and the choice among them.
pub mod Balancer
pub mod Dnssrv
use lura_p.Common.{String, List, [], Option, none}

pub data SdError : Type 0 where
  err_no_hosts : SdError
  err_subscriber : String → SdError

-- `Hosts()`: the hosts and the error, either of which may be nil.
abbrev pub Hosts : Type 0
Hosts = List String × Option SdError

-- A `Subscriber` is told apart only where it is a `FixedSubscriber`; what any other answers comes
-- with each call.
pub data Subscriber : Type 0 where
  fixed : List String → Subscriber
  dynamic : Subscriber

-- `subscriber.Hosts()`, where `answer` is what a subscriber that is not fixed says now.
unfoldable pub hosts_of : Subscriber → Hosts → Hosts
hosts_of (fixed hs) answer = (hs, none)
hosts_of dynamic answer = answer
