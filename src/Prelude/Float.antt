-- ===== src/Prelude/Float.antt =====
-- `float` as far as the program uses it: a type with its operations and tests. No law of arithmetic
-- is assumed; where a theorem needs a comparison to come out one way, it says so.
use ego_touch_rev.Prelude.{Bool}

pub record FloatOps (F : Type 0) : Type 0 where
  pub zero_f : F
  pub add_f : F → F → F
  pub sub_f : F → F → F
  pub mul_f : F → F → F
  pub lt_f : F → F → Bool
  pub le_f : F → F → Bool
