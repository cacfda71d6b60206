-- ===== src/Qt.antt =====
-- What the program uses of Qt's value types: strings, and the ordered map that holds the sessions.
pub mod Text
pub mod Map
pub mod Number
