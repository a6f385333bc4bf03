-- ===== src/Json.antt =====
-- The library third_party/nlohmann/json.hpp as its callers see it.
pub mod Interface
pub mod Toy
