-- ===== src/Config.antt =====
-- crates/futu/src/config.rs
use nautilus_futu.Prelude.{ℕ, Bool, true, false, Option, none}
use nautilus_futu.Prelude.Words.{ℤ, pos}
use nautilus_futu.Prelude.Text.{Text, ascii}

pub record FutuConfig : Type 0 where
  pub host : Text
  pub port : ℕ
  pub client_id : Text
  pub client_ver : ℤ
  pub rsa_key_path : Option Text
  pub enable_encryption : Bool
  pub reconnect : Bool
  pub reconnect_interval_secs : ℕ

abbrev pub default : FutuConfig
default = record {
  host = ascii "127.0.0.1";
  port = 11111;
  client_id = ascii "nautilus_futu";
  client_ver = pos 100;
  rsa_key_path = none;
  enable_encryption = false;
  reconnect = true;
  reconnect_interval_secs = 5;
}
