-- ===== src/Floats.antt =====
-- The floating-point numbers of the Rust standard library, which the sources use and do not define.
use helix_router_adaptive_as.Common.{ℕ, Bool}

-- `f32` and `f64` with the operations that the modelled code applies to them. A literal such as
-- `0.65` is `lit32 65`, in hundredths; `of_ℕ` and `to_u64` are the `as` casts.
pub record Floats : Type 1 where
  pub F32 : Type 0
  pub F64 : Type 0
  pub lit32 : ℕ → F32
  pub le32 : F32 → F32 → Bool
  pub lit64 : ℕ → F64
  pub basis_point : F64
  pub lt64 : F64 → F64 → Bool
  pub le64 : F64 → F64 → Bool
  pub add64 : F64 → F64 → F64
  pub sub64 : F64 → F64 → F64
  pub mul64 : F64 → F64 → F64
  pub div64 : F64 → F64 → F64
  pub max64 : F64 → F64 → F64
  pub min64 : F64 → F64 → F64
  pub ceil64 : F64 → F64
  pub round64 : F64 → F64
  pub clamp_unit : F64 → F64
  pub of_ℕ : ℕ → F64
  pub to_u64 : F64 → ℕ
