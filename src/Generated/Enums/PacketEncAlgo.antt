-- ===== src/Generated/Enums/PacketEncAlgo.antt =====
-- crates/futu/src/generated/common.rs: the enumeration PacketEncAlgo.
use Prim.Native.String.{String}
use nautilus_futu.Prelude.{◌≡◌, refl, List, [], ◌∷◌, Option, some}
use nautilus_futu.Prelude.Words.{ℤ, pos, negsuc}
use nautilus_futu.Generated.Enums.{match_name, Exact, match_name_sound}

pub data PacketEncAlgo : Type 0 where
  ftaes_ecb packet_enc_algo_none aes_ecb aes_cbc : PacketEncAlgo

-- `self as i32`
abbrev pub as_i32 : PacketEncAlgo → ℤ
as_i32 ftaes_ecb = pos 0
as_i32 packet_enc_algo_none = negsuc 0
as_i32 aes_ecb = pos 1
as_i32 aes_cbc = pos 2

abbrev pub as_str_name : PacketEncAlgo → String
as_str_name ftaes_ecb = "PacketEncAlgo_FTAES_ECB"
as_str_name packet_enc_algo_none = "PacketEncAlgo_None"
as_str_name aes_ecb = "PacketEncAlgo_AES_ECB"
as_str_name aes_cbc = "PacketEncAlgo_AES_CBC"

abbrev arms : List (String × PacketEncAlgo)
arms =
    ("PacketEncAlgo_FTAES_ECB", ftaes_ecb)
    ∷ ("PacketEncAlgo_None", packet_enc_algo_none)
    ∷ ("PacketEncAlgo_AES_ECB", aes_ecb)
    ∷ ("PacketEncAlgo_AES_CBC", aes_cbc)
    ∷ []

unfoldable pub from_str_name : String → Option PacketEncAlgo
from_str_name value = match_name value arms

pub exact : Exact as_str_name from_str_name
unfolding Exact from_str_name match_name
exact = (
  λ a. elim a as (λ k. from_str_name (as_str_name k) ≡ some k) [
    | ftaes_ecb ↦ refl
    | packet_enc_algo_none ↦ refl
    | aes_ecb ↦ refl
    | aes_cbc ↦ refl
  ],
  match_name_sound as_str_name arms refl,
)
