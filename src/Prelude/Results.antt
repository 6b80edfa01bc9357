-- ===== src/Prelude/Results.antt =====
-- `Result`, as the standard library has it.
pub data Result (A E : Type 0) : Type 0 where
  ok : A → Result A E
  err : E → Result A E
