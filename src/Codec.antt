-- ===== src/Codec.antt =====
-- A frame of boxes and its JSON text: storage/YoloTypes.h and common/codec.
pub mod Frame
pub mod RoundTrip
pub mod Tests
