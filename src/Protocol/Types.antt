-- ===== src/Protocol/Types.antt =====
-- raiot-protocol/src/identity.rs and qos.rs: who a client is, and how its messages are delivered.
use raiot_rs.Base.{ℕ, ◌++◌}
use raiot_rs.Protocol.Text.{Text, codes}

pub record DeviceIdentity : Type 0 where
  pub device_id : Text

pub record ModuleIdentity : Type 0 where
  pub device_id : Text
  pub module_id : Text

pub data ClientIdentity : Type 0 where
  device : DeviceIdentity → ClientIdentity
  module_ : ModuleIdentity → ClientIdentity

abbrev pub from_device_id : Text → ClientIdentity
from_device_id d = device (record { device_id = d })

abbrev pub from_module_id : Text → Text → ClientIdentity
from_module_id d m = module_ (record { device_id = d; module_id = m })

-- `Display for ClientIdentity`
unfoldable pub display_identity : ClientIdentity → Text
display_identity (device d) = d.device_id
display_identity (module_ m) = m.device_id ++ (codes "/" ++ m.module_id)

-- A 16-bit packet identifier.
pub record PacketId : Type 0 where
  pub value : ℕ

pub data DeliveryGuarantees : Type 0 where
  at_most_once at_least_once : DeliveryGuarantees

pub data SessionMode : Type 0 where
  clean dirty : SessionMode
