-- ===== src/Status.antt =====
-- The `int` results of the library's functions: 0, and the negative number that reports a failure.
pub data Status : Type 0 where
  ok fail : Status
