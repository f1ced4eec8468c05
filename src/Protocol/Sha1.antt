-- ===== src/Protocol/Sha1.antt =====
-- The hash of the `sha1` crate, which the header uses and does not implement.
use nautilus_futu.Prelude.{ℕ, ◌≡◌, List, length}

-- A digest has 20 bytes.
pub record Sha1 : Type 0 where
  pub digest : List ℕ → List ℕ
  pub length-digest : (body : List ℕ) → length (digest body) ≡ 20
