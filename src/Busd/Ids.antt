-- ===== src/Busd/Ids.antt =====
-- How often an id stands in a list of client ids, and what the removals of services/bb-busd.c do to
-- it. Their order of ids is not kept: the last id takes the place of the removed one.
use imx8mp_building_blocks.Base.{
  ℕ, zero, suc, ◌+◌, ◌-◌, ◌≤◌, ◌<◌, ◌≡◌, refl, ap, ◌∙◌, List, [], ◌∷◌, ◌++◌, ◌==◌, ltb,
  if◌then◌else◌, arith, false, ◌&&◌, length, get_or, set, take, length-set, none, some, dec_lt,
  length-append, ℕ_discrete, lt→ltb, ◌⊎◌, Bool-cases, inl, inr,
}
use native.Mathlib.Numerals.{add-one}
use imx8mp_building_blocks.Busd.Table.{
  contains, add_id, drop_last, swap_remove, index_of, remove_id, purge_from, max_clients,
}

-- The number of entries of `ids` that are `x`.
unfoldable pub occ : ℕ → List ℕ → ℕ
occ x [] = 0
occ x (y ∷ ys) = (if y == x then 1 else 0) + occ x ys

pub occ-append : (x : ℕ) (xs ys : List ℕ) → occ x (xs ++ ys) ≡ occ x xs + occ x ys
unfolding occ
occ-append x [] ys = omega arith
occ-append x (y ∷ xs) ys = omega (arith, occ-append x xs ys)

occ-set :
    (x : ℕ) (ids : List ℕ) (j v : ℕ)
    → j < length ids
    → occ x (set ids j v) + (if get_or ids j 0 == x then 1 else 0)
      ≡ occ x ids + (if v == x then 1 else 0)
unfolding occ
occ-set x [] j v h = absurd (omega arith)
occ-set x (y ∷ ys) zero v h = omega arith
occ-set x (y ∷ ys) (suc j) v h = omega (arith, occ-set x ys j v (omega arith))

occ-drop_last :
    (x : ℕ) (ids : List ℕ)
    → 0 < length ids
    → occ x (drop_last ids) + (if get_or ids (length ids - 1) 0 == x then 1 else 0) ≡ occ x ids
unfolding occ
occ-drop_last x [] h = absurd (omega arith)
occ-drop_last x (y ∷ []) h = omega arith
occ-drop_last x (y ∷ z ∷ zs) h =
    let e : length (y ∷ z ∷ zs) - 1 ≡ suc (length (z ∷ zs) - 1) = omega arith in
    rw e (omega (arith, occ-drop_last x (z ∷ zs) (omega arith)))

length-drop_last : (ids : List ℕ) → length (drop_last ids) ≡ length ids - 1
length-drop_last [] = refl
length-drop_last (y ∷ []) = refl
length-drop_last (y ∷ z ∷ zs) = omega (arith, length-drop_last (z ∷ zs))

get_or-set :
    (ids : List ℕ) (i j v : ℕ)
    → i < length ids
    → get_or (set ids i v) j 0 ≡ (if i == j then v else get_or ids j 0)
get_or-set [] i j v h = absurd (omega arith)
get_or-set (y ∷ ys) zero zero v h = refl
get_or-set (y ∷ ys) zero (suc j) v h = ground arith
get_or-set (y ∷ ys) (suc i) zero v h = ground arith
get_or-set (y ∷ ys) (suc i) (suc j) v h = ground (arith, get_or-set ys i j v)

pub length-swap_remove : (ids : List ℕ) (j : ℕ) → length (swap_remove ids j) ≡ length ids - 1
length-swap_remove ids j = omega (
  arith,
  length-drop_last (set ids j (get_or ids (length ids - 1) 0)),
  length-set ids j (get_or ids (length ids - 1) 0),
)

-- One occurrence goes.
pub occ-swap_remove :
    (x : ℕ) (ids : List ℕ) (j : ℕ)
    → j < length ids
    → occ x (swap_remove ids j) + (if get_or ids j 0 == x then 1 else 0) ≡ occ x ids
occ-swap_remove x ids j h =
    let last : ℕ = get_or ids (length ids - 1) 0 in
    let len : length (set ids j last) ≡ length ids = length-set ids j last in
    let end : get_or (set ids j last) (length (set ids j last) - 1) 0 ≡ last =
      rw len (ground (arith, get_or-set ids j (length ids - 1) last)) in
    let dropped = occ-drop_last x (set ids j last) (omega (arith, len)) in
    omega (arith, rw end at dropped, occ-set x ids j last h)

-- What stands before `j` stays.
take-drop_last : (ids : List ℕ) (j : ℕ) → j < length ids → take j (drop_last ids) ≡ take j ids
take-drop_last [] j h = absurd (omega arith)
take-drop_last (y ∷ []) zero h = refl
take-drop_last (y ∷ []) (suc j) h = absurd (omega arith)
take-drop_last (y ∷ z ∷ zs) zero h = refl
take-drop_last (y ∷ z ∷ zs) (suc j) h = ap (λ xs. y ∷ xs) (take-drop_last (z ∷ zs) j (omega arith))

take-set : (ids : List ℕ) (j v : ℕ) → take j (set ids j v) ≡ take j ids
take-set [] j v = refl
take-set (y ∷ ys) zero v = refl
take-set (y ∷ ys) (suc j) v = ap (λ xs. y ∷ xs) (take-set ys j v)

take-swap_remove : (ids : List ℕ) (j : ℕ) → j < length ids → take j (swap_remove ids j) ≡ take j ids
take-swap_remove ids j h =
    let last : ℕ = get_or ids (length ids - 1) 0 in
    take-drop_last (set ids j last) j (omega (arith, length-set ids j last)) ∙ take-set ids j last

take-all : (ids : List ℕ) (j : ℕ) → length ids ≤ j → take j ids ≡ ids
take-all [] zero h = refl
take-all [] (suc j) h = refl
take-all (y ∷ ys) zero h = absurd (omega arith)
take-all (y ∷ ys) (suc j) h = ap (λ xs. y ∷ xs) (take-all ys j (omega arith))

occ-take-suc :
    (x : ℕ) (ids : List ℕ) (j : ℕ)
    → j < length ids
    → occ x (take (suc j) ids) ≡ occ x (take j ids) + (if get_or ids j 0 == x then 1 else 0)
unfolding occ
occ-take-suc x [] j h = absurd (omega arith)
occ-take-suc x (y ∷ ys) zero h = omega arith
occ-take-suc x (y ∷ ys) (suc j) h = omega (arith, occ-take-suc x ys j (omega arith))

-- What the loop of remove_client promises of one list of ids.
abbrev Purged : ℕ → List ℕ → List ℕ → Type 0
Purged fd ids out =
    (length out ≤ length ids) × ((x : ℕ) → occ x out ≡ (if x == fd then 0 else occ x ids))

Purged-same : (fd : ℕ) (ids : List ℕ) → occ fd ids ≡ 0 → Purged fd ids ids
Purged-same fd ids clean = (
  omega arith,
  λ x. elim (ℕ_discrete x fd) [
    | yes e ↦ ground (arith, ap (λ y. occ y ids) e, clean)
    | no ne ↦ ground arith
  ],
)

-- One id that is `fd` is taken out, and the rest is purged.
Purged-gone :
    (fd j : ℕ) (ids out : List ℕ)
    → j < length ids
    → get_or ids j 0 ≡ fd
    → Purged fd (swap_remove ids j) out
    → Purged fd ids out
Purged-gone fd j ids out lt at (short, kept) = (
  omega (arith, short, length-swap_remove ids j),
  λ x. ground (arith, kept x, occ-swap_remove x ids j lt, at),
)

-- The loop from a `j` before which `fd` does not stand, with enough rounds.
purge_from-Purged :
    (rounds j fd : ℕ) (ids : List ℕ)
    → length ids ≤ j + rounds
    → occ fd (take j ids) ≡ 0
    → Purged fd ids (purge_from rounds j fd ids)
unfolding purge_from
purge_from-Purged zero j fd ids enough clean =
    Purged-same fd ids (rw (take-all ids j (omega arith)) at clean)
purge_from-Purged (suc rounds) j fd ids enough clean = elim (dec_lt j (length ids)) [
  | yes lt ↦ elim (Bool-cases (get_or ids j 0 == fd)) [
    | inl here ↦
        rw (lt→ltb _ _ lt, here)
          (Purged-gone fd j ids _ lt (ground arith) (
            purge_from-Purged rounds j fd (swap_remove ids j)
              (omega (arith, length-swap_remove ids j)) (rw (take-swap_remove ids j lt) clean)))
    | inr other ↦
        rw (lt→ltb _ _ lt, other)
          (purge_from-Purged rounds (j + 1) fd ids (omega arith)
            (rw add-one (ground (arith, occ-take-suc fd ids j lt))))
  ]
  | no out ↦
      let stop : ltb j (length ids) ≡ false = ground arith in
      rw stop (Purged-same fd ids (rw (take-all ids j (omega arith)) at clean))
]

-- remove_client leaves no trace of `fd` in a list of ids, and every other id as often as it was.
pub occ-purge :
    (x fd : ℕ) (ids : List ℕ)
    → occ x (purge_from (length ids) 0 fd ids) ≡ (if x == fd then 0 else occ x ids)
occ-purge x fd ids =
    (purge_from-Purged (length ids) 0 fd ids (omega arith) (unfold occ in refl)).1 x

pub length-purge : (fd : ℕ) (ids : List ℕ) → length (purge_from (length ids) 0 fd ids) ≤ length ids
length-purge fd ids = (purge_from-Purged (length ids) 0 fd ids (omega arith) (unfold occ in refl)).0

pub occ-contains : (fd : ℕ) (ids : List ℕ) → contains fd ids ≡ ltb 0 (occ fd ids)
unfolding contains occ
occ-contains fd [] = refl
occ-contains fd (j ∷ ids) = ground (arith, occ-contains fd ids)

index_of-Finds :
    (fd : ℕ) (ids : List ℕ)
    → ((index_of fd ids ≡ none) × (occ fd ids ≡ 0))
      ⊎ ((j : ℕ) × (index_of fd ids ≡ some j) × (j < length ids) × (get_or ids j 0 ≡ fd))
unfolding index_of occ
index_of-Finds fd [] = inl (refl, refl)
index_of-Finds fd (y ∷ ys) = elim (Bool-cases (y == fd)) [
  | inl here ↦ inr (0, rw here, omega arith, ground arith)
  | inr other ↦ elim (index_of-Finds fd ys) [
    | inl (e, z) ↦ inl (rw (other, e), rw (other, z))
    | inr (j, e, lt, at) ↦ inr (suc j, rw (other, e), omega arith, at)
  ]
]

-- UNSUB takes one occurrence of `fd` out, if there is one.
pub occ-remove_id :
    (x fd : ℕ) (ids : List ℕ) → occ x (remove_id fd ids) ≡ occ x ids - (if x == fd then 1 else 0)
unfolding remove_id
occ-remove_id x fd ids = elim (index_of-Finds fd ids) [
  | inl (e, z) ↦
      rw (e, remove_id)
        (elim (ℕ_discrete x fd) [
          | yes same ↦ omega (arith, ap (λ y. occ y ids) same, z)
          | no ne ↦ ground arith
        ])
  | inr (j, e, lt, at) ↦ rw (e, remove_id) (ground (arith, occ-swap_remove x ids j lt, at))
]

pub length-remove_id : (fd : ℕ) (ids : List ℕ) → length (remove_id fd ids) ≤ length ids
unfolding remove_id
length-remove_id fd ids = elim (index_of-Finds fd ids) [
  | inl (e, z) ↦ rw (e, remove_id) (omega arith)
  | inr (j, e, lt, at) ↦ rw (e, remove_id) (omega (arith, length-swap_remove ids j))
]

-- SUB adds `fd` exactly if there is room and it is not there.
pub occ-add_id :
    (x fd : ℕ) (ids : List ℕ)
    → occ x (add_id fd ids)
      ≡ occ x ids + (if x == fd && (ltb (length ids) max_clients && occ fd ids == 0) then 1 else 0)
unfolding add_id occ
occ-add_id x fd ids = ground (arith, occ-contains fd ids, occ-append x ids (fd ∷ []))

pub length-add_id :
    (fd : ℕ) (ids : List ℕ) → length ids ≤ max_clients → length (add_id fd ids) ≤ max_clients
unfolding add_id
length-add_id fd ids h = ground (arith, length-append ids (fd ∷ []))
