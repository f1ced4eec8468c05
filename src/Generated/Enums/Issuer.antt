-- ===== src/Generated/Enums/Issuer.antt =====
-- crates/futu/src/generated/qot_common.rs: the enumeration Issuer.
use Prim.Native.String.{String}
use nautilus_futu.Prelude.{◌≡◌, refl, List, [], ◌∷◌, Option, some}
use nautilus_futu.Prelude.Words.{ℤ, pos}
use nautilus_futu.Generated.Enums.{match_name, Exact, match_name_sound}

pub data Issuer : Type 0 where
  unknow sg bp cs ct ea gs hs jp mb sc ub bi db dc ml nm rb rs bc ht vt kc ms gj xz hu ks ci :
      Issuer

-- `self as i32`
abbrev pub as_i32 : Issuer → ℤ
as_i32 unknow = pos 0
as_i32 sg = pos 1
as_i32 bp = pos 2
as_i32 cs = pos 3
as_i32 ct = pos 4
as_i32 ea = pos 5
as_i32 gs = pos 6
as_i32 hs = pos 7
as_i32 jp = pos 8
as_i32 mb = pos 9
as_i32 sc = pos 10
as_i32 ub = pos 11
as_i32 bi = pos 12
as_i32 db = pos 13
as_i32 dc = pos 14
as_i32 ml = pos 15
as_i32 nm = pos 16
as_i32 rb = pos 17
as_i32 rs = pos 18
as_i32 bc = pos 19
as_i32 ht = pos 20
as_i32 vt = pos 21
as_i32 kc = pos 22
as_i32 ms = pos 23
as_i32 gj = pos 24
as_i32 xz = pos 25
as_i32 hu = pos 26
as_i32 ks = pos 27
as_i32 ci = pos 28

abbrev pub as_str_name : Issuer → String
as_str_name unknow = "Issuer_Unknow"
as_str_name sg = "Issuer_SG"
as_str_name bp = "Issuer_BP"
as_str_name cs = "Issuer_CS"
as_str_name ct = "Issuer_CT"
as_str_name ea = "Issuer_EA"
as_str_name gs = "Issuer_GS"
as_str_name hs = "Issuer_HS"
as_str_name jp = "Issuer_JP"
as_str_name mb = "Issuer_MB"
as_str_name sc = "Issuer_SC"
as_str_name ub = "Issuer_UB"
as_str_name bi = "Issuer_BI"
as_str_name db = "Issuer_DB"
as_str_name dc = "Issuer_DC"
as_str_name ml = "Issuer_ML"
as_str_name nm = "Issuer_NM"
as_str_name rb = "Issuer_RB"
as_str_name rs = "Issuer_RS"
as_str_name bc = "Issuer_BC"
as_str_name ht = "Issuer_HT"
as_str_name vt = "Issuer_VT"
as_str_name kc = "Issuer_KC"
as_str_name ms = "Issuer_MS"
as_str_name gj = "Issuer_GJ"
as_str_name xz = "Issuer_XZ"
as_str_name hu = "Issuer_HU"
as_str_name ks = "Issuer_KS"
as_str_name ci = "Issuer_CI"

abbrev arms : List (String × Issuer)
arms =
    ("Issuer_Unknow", unknow)
    ∷ ("Issuer_SG", sg)
    ∷ ("Issuer_BP", bp)
    ∷ ("Issuer_CS", cs)
    ∷ ("Issuer_CT", ct)
    ∷ ("Issuer_EA", ea)
    ∷ ("Issuer_GS", gs)
    ∷ ("Issuer_HS", hs)
    ∷ ("Issuer_JP", jp)
    ∷ ("Issuer_MB", mb)
    ∷ ("Issuer_SC", sc)
    ∷ ("Issuer_UB", ub)
    ∷ ("Issuer_BI", bi)
    ∷ ("Issuer_DB", db)
    ∷ ("Issuer_DC", dc)
    ∷ ("Issuer_ML", ml)
    ∷ ("Issuer_NM", nm)
    ∷ ("Issuer_RB", rb)
    ∷ ("Issuer_RS", rs)
    ∷ ("Issuer_BC", bc)
    ∷ ("Issuer_HT", ht)
    ∷ ("Issuer_VT", vt)
    ∷ ("Issuer_KC", kc)
    ∷ ("Issuer_MS", ms)
    ∷ ("Issuer_GJ", gj)
    ∷ ("Issuer_XZ", xz)
    ∷ ("Issuer_HU", hu)
    ∷ ("Issuer_KS", ks)
    ∷ ("Issuer_CI", ci)
    ∷ []

unfoldable pub from_str_name : String → Option Issuer
from_str_name value = match_name value arms

pub exact : Exact as_str_name from_str_name
unfolding Exact from_str_name match_name
exact = (
  λ a. elim a as (λ k. from_str_name (as_str_name k) ≡ some k) [
    | unknow ↦ refl
    | sg ↦ refl
    | bp ↦ refl
    | cs ↦ refl
    | ct ↦ refl
    | ea ↦ refl
    | gs ↦ refl
    | hs ↦ refl
    | jp ↦ refl
    | mb ↦ refl
    | sc ↦ refl
    | ub ↦ refl
    | bi ↦ refl
    | db ↦ refl
    | dc ↦ refl
    | ml ↦ refl
    | nm ↦ refl
    | rb ↦ refl
    | rs ↦ refl
    | bc ↦ refl
    | ht ↦ refl
    | vt ↦ refl
    | kc ↦ refl
    | ms ↦ refl
    | gj ↦ refl
    | xz ↦ refl
    | hu ↦ refl
    | ks ↦ refl
    | ci ↦ refl
  ],
  match_name_sound as_str_name arms refl,
)
