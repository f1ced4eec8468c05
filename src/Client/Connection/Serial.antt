-- ===== src/Client/Connection/Serial.antt =====
-- The serial numbers of connection.rs.
use nautilus_futu.Prelude.{ℕ, zero, suc, ◌+◌, ◌%◌, ◌<◌, ◌≡◌, ◌↔◌, ◌∙◌, arith}
use nautilus_futu.Prelude.Words.{u32_mod}
use nautilus_futu.Client.Connection.{FutuConnection, next_serial}

-- The connection after `n` serial numbers were taken.
pub advanced : ℕ → FutuConnection → FutuConnection
advanced zero c = c
advanced (suc n) c = advanced n (next_serial c).1

-- The serial number taken after `n` others.
abbrev pub serial_at : ℕ → FutuConnection → ℕ
serial_at n c = (next_serial (advanced n c)).0

counter-advanced :
    (n : ℕ) (c : FutuConnection)
    → c.serial_counter < u32_mod
    → (advanced n c).serial_counter ≡ (c.serial_counter + n) % u32_mod
unfolding advanced next_serial
counter-advanced zero c h = omega arith
counter-advanced (suc n) c h = counter-advanced n (next_serial c).1 (omega arith) ∙ omega arith

serial_at_lem :
    (n : ℕ) (c : FutuConnection)
    → c.serial_counter < u32_mod
    → serial_at n c ≡ (c.serial_counter + n) % u32_mod
unfolding next_serial
serial_at_lem n c h = counter-advanced n c h

-- Of a connection whose counter is 32-bit, two serial numbers are the same exactly if the second is
-- taken a multiple of 2 ^ 32 numbers after the first.
pub serial_at-eq_iff :
    (c : FutuConnection) (i k : ℕ)
    → c.serial_counter < u32_mod
    → (serial_at i c ≡ serial_at (i + k) c) ↔ (k % u32_mod ≡ 0)
serial_at-eq_iff c i k h = (
  λ e. omega (arith, serial_at_lem i c h, serial_at_lem (i + k) c h),
  λ e. omega (arith, serial_at_lem i c h, serial_at_lem (i + k) c h),
)
