-- ===== src/Mqtt.antt =====
-- internal/mqtt: the slice of MQTT 3.1.1 that the device fleet uses.
pub mod Wire
pub mod TypeName
pub mod Varint
pub mod Packet
pub mod Connect
pub mod Publish
