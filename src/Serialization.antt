-- ===== src/Serialization.antt =====
-- src/serialization.rs. `Writer` has the serializer, `Reader` the deserializer, and `Wire` the traits
-- `Serialize` and `Deserialize` with their six implementations and the functions of `utils`.
pub mod Writer
pub mod Utf8
pub mod Reader
pub mod Wire
