-- ===== src/Js.antt =====
-- What the source uses of JavaScript itself.
pub mod Number
pub mod Text
pub mod Float
pub mod Date
