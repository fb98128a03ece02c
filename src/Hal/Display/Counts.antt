-- ===== src/Hal/Display/Counts.antt =====
-- How often a resource is taken from the kernel and given back in a row of actions.
use imx8mp_building_blocks.Base.{
  ℕ, ◌+◌, ◌≡◌, ◌==◌, Bool, false, List, [], ◌∷◌, ◌++◌, if◌then◌else◌, arith,
}
use imx8mp_building_blocks.Hal.Display.{
  Resource, descriptor, buffer, framebuffer, mapping, DrmAction, takes, gives, set_master,
  drop_master, shows, page_flip, dirty,
}

abbrev pub same : Resource → Resource → Bool
same (descriptor a) (descriptor b) = a == b
same (buffer a) (buffer b) = a == b
same (framebuffer a) (framebuffer b) = a == b
same (mapping a) (mapping b) = a == b
same _ _ = false

-- How often a resource is taken and given back.
abbrev pub taken : Resource → List DrmAction → ℕ
taken r [] = 0
taken r (takes x ∷ actions) = (if same x r then 1 else 0) + taken r actions
taken r (a ∷ actions) = taken r actions

abbrev pub given : Resource → List DrmAction → ℕ
given r [] = 0
given r (gives x ∷ actions) = (if same x r then 1 else 0) + given r actions
given r (a ∷ actions) = given r actions

module _ (r : Resource) where
  pub taken-append : (xs ys : List DrmAction) → taken r (xs ++ ys) ≡ taken r xs + taken r ys
  taken-append [] ys = omega arith
  taken-append (takes x ∷ xs) ys = omega (arith, taken-append xs ys)
  taken-append (gives x ∷ xs) ys = taken-append xs ys
  taken-append (set_master ∷ xs) ys = taken-append xs ys
  taken-append (drop_master ∷ xs) ys = taken-append xs ys
  taken-append (shows a b c ∷ xs) ys = taken-append xs ys
  taken-append (page_flip a b ∷ xs) ys = taken-append xs ys
  taken-append (dirty a ∷ xs) ys = taken-append xs ys

  pub given-append : (xs ys : List DrmAction) → given r (xs ++ ys) ≡ given r xs + given r ys
  given-append [] ys = omega arith
  given-append (takes x ∷ xs) ys = given-append xs ys
  given-append (gives x ∷ xs) ys = omega (arith, given-append xs ys)
  given-append (set_master ∷ xs) ys = given-append xs ys
  given-append (drop_master ∷ xs) ys = given-append xs ys
  given-append (shows a b c ∷ xs) ys = given-append xs ys
  given-append (page_flip a b ∷ xs) ys = given-append xs ys
  given-append (dirty a ∷ xs) ys = given-append xs ys

  -- 1 if the resource is this one.
  abbrev pub one : Resource → ℕ
  one x = if same x r then 1 else 0

  -- Giving one more resource back.
  pub after_gives :
      (asked : List DrmAction) (x : Resource) (n : ℕ)
      → taken r asked ≡ given r asked + (one x + n)
      → taken r (asked ++ gives x ∷ []) ≡ given r (asked ++ gives x ∷ []) + n
  after_gives asked x n h =
      omega (arith, taken-append asked (gives x ∷ []), given-append asked (gives x ∷ []))

  pub after_takes :
      (asked : List DrmAction) (x : Resource) (n : ℕ)
      → taken r asked ≡ given r asked + n
      → taken r (asked ++ takes x ∷ []) ≡ given r (asked ++ takes x ∷ []) + (one x + n)
  after_takes asked x n h =
      omega (arith, taken-append asked (takes x ∷ []), given-append asked (takes x ∷ []))
