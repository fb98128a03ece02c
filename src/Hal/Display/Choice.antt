-- ===== src/Hal/Display/Choice.antt =====
-- The connector that bb_display_open chooses.
use imx8mp_building_blocks.Base.{
  ◌≡◌, refl, ap, true, Option, none, some, List, [], ◌∷◌, ◌++◌, All, Option-cases, inl, inr, arith,
}
use imx8mp_building_blocks.Hal.Display.{
  DisplayType, Mode, Connector, has_type, usable, find_connector,
}

-- A screen of the type is connected, and the kernel tells its first mode.
pub record IsUsable (type : DisplayType) (c : Option Connector) (found : Connector) (mode : Mode)
    : Type 0 where
  pub there : c ≡ some found
  pub has_screen : found.connected ≡ true
  pub has_type : has_type type found.connector_type ≡ true
  pub has_mode : found.first_mode ≡ some mode

-- No connector of the list is usable.
abbrev pub NoneUsable : DisplayType → List (Option Connector) → Type 0
NoneUsable type cs =
    All (λ c. (found : Connector) (mode : Mode) → IsUsable type c found mode → ⊥) cs

usable-IsUsable :
    (type : DisplayType) (c : Option Connector) (found : Connector) (mode : Mode)
    → usable type c ≡ some (found, mode)
    → IsUsable type c found mode
unfolding usable
usable-IsUsable type none found mode h = cc
usable-IsUsable type (some c) found mode h = ground arith

usable-none :
    (type : DisplayType) (c : Option Connector)
    → usable type c ≡ none
    → (found : Connector) (mode : Mode) → IsUsable type c found mode
    → ⊥
unfolding usable
usable-none type c h found mode u = ground (arith, u.there, u.has_screen, u.has_type, u.has_mode)

-- What the loop over the connectors finds: the first usable one with its mode, or nothing if none is usable.
pub data Found (type : DisplayType) (cs : List (Option Connector))
    : Option (Connector × Mode) → Type 0 where
  nothing : NoneUsable type cs → Found type cs none
  first :
      (ahead : List (Option Connector)) (c : Option Connector) (rest : List (Option Connector))
      (found : Connector) (mode : Mode)
      → cs ≡ ahead ++ (c ∷ rest)
      → NoneUsable type ahead
      → IsUsable type c found mode
      → Found type cs (some (found, mode))

Found-later :
    {type : DisplayType} {c : Option Connector} {cs : List (Option Connector)}
    {r : Option (Connector × Mode)}
    → ((found : Connector) (mode : Mode) → IsUsable type c found mode → ⊥)
    → Found type cs r
    → Found type (c ∷ cs) r
Found-later no_use (nothing h) = nothing (no_use, h)
Found-later {type} {c} no_use (first ahead c' rest found mode e h u) =
    first (c ∷ ahead) c' rest found mode (ap (λ l. c ∷ l) e) (no_use, h) u

-- The loop of bb_display_open takes the first connector with a screen of the type and a mode, and none exactly if
-- there is none.
pub find_connector-Found :
    (type : DisplayType) (cs : List (Option Connector)) → Found type cs (find_connector type cs)
unfolding find_connector
find_connector-Found type [] = nothing tt
find_connector-Found type (c ∷ cs) = elim (Option-cases (usable type c)) [
  | inl e ↦
      rw (e, find_connector) (Found-later (usable-none type c e) (find_connector-Found type cs))
  | inr ((found, mode), e) ↦
      rw (e, find_connector)
        (first [] c cs found mode refl tt (usable-IsUsable type c found mode e))
]
