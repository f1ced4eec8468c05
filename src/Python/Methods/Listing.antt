-- ===== src/Python/Methods/Listing.antt =====
-- The dicts of `get_ipo_list` of crates/futu/src/python/client.rs, where one listing has the data
-- of several markets.
use nautilus_futu.Prelude.{◌≡◌, refl, Option, none, some}
use nautilus_futu.Generated.Answer.Events.{
  IpoData, BasicIpoData, CnIpoExData, HkIpoExData, UsIpoExData,
}
use nautilus_futu.Python.Object.{at_key, get_item, set_item, set_items, float, int}
use nautilus_futu.Python.Methods.Events.{get_ipo_list_item}

-- What the later of two markets says, or else the earlier one.
abbrev pub latest : {A B C : Type 0} → (A → C) → (B → C) → Option A → Option B → Option C
latest f g a (some b) = some (g b)
latest f g (some a) none = some (f a)
latest f g none none = none

module _ {F : Type 0} where
  -- The keys that several markets set.
  abbrev pub Merged : IpoData F → Type 0
  Merged ipo =
      let d = get_ipo_list_item ipo in
      (at_key "ipo_price_min" d
        ≡ latest (λ (hk : HkIpoExData F). float hk.ipo_price_min)
            (λ (us : UsIpoExData F). float us.ipo_price_min) ipo.hk_ex_data ipo.us_ex_data)
      × (at_key "ipo_price_max" d
          ≡ latest (λ (hk : HkIpoExData F). float hk.ipo_price_max)
              (λ (us : UsIpoExData F). float us.ipo_price_max) ipo.hk_ex_data ipo.us_ex_data)
      × (at_key "issue_size" d
          ≡ latest (λ (us : UsIpoExData F). int us.issue_size)
              (λ (cn : CnIpoExData F). int cn.issue_size) ipo.us_ex_data ipo.cn_ex_data)

  by_market :
      (basic : BasicIpoData F) (cn : Option (CnIpoExData F)) (hk : Option (HkIpoExData F))
      (us : Option (UsIpoExData F))
      → Merged (record { basic = basic; cn_ex_data = cn; hk_ex_data = hk; us_ex_data = us })
  unfolding get_item set_item set_items
  by_market basic none none none = (refl, refl, refl)
  by_market basic none none (some us) = (refl, refl, refl)
  by_market basic none (some hk) none = (refl, refl, refl)
  by_market basic none (some hk) (some us) = (refl, refl, refl)
  by_market basic (some cn) none none = (refl, refl, refl)
  by_market basic (some cn) none (some us) = (refl, refl, refl)
  by_market basic (some cn) (some hk) none = (refl, refl, refl)
  by_market basic (some cn) (some hk) (some us) = (refl, refl, refl)

  -- A listing with the data of several markets makes one dict, and under each key that two of them
  -- set it has the value of the later one: US before HK for the prices, CN before US for the size.
  pub get_ipo_list_item-Merged : (ipo : IpoData F) → Merged ipo
  get_ipo_list_item-Merged ipo = by_market ipo.basic ipo.cn_ex_data ipo.hk_ex_data ipo.us_ex_data
