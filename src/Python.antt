-- ===== src/Python.antt =====
-- What the sources use of Python: exceptions, `str` methods, and the values that JSON documents hold.
pub mod Error
pub mod Text
pub mod Value
pub mod Pattern
pub mod Json
pub mod Runtime
