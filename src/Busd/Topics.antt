-- ===== src/Busd/Topics.antt =====
-- Which topics a pattern of the bus matches.
use imx8mp_building_blocks.Base.{
  ◌≡◌, refl, ◌↔◌, ◌⊎◌, inl, inr, none, some, [], ◌∷◌, ◌++◌, arith, true, false, Bool-cases,
  Option-cases, if◌then◌else◌,
}
use imx8mp_building_blocks.Base.Bytes.{
  Bytes, str_eq, str_eq_refl, str_eq_sound, starts_with, starts_with-append, starts_with_sound,
}
use imx8mp_building_blocks.Busd.Table.{wildcard, topic_match}

wildcard-append : (q : Bytes) → wildcard (q ++ b'#' ∷ []) ≡ some q
unfolding wildcard
wildcard-append [] = refl
wildcard-append (c ∷ []) = refl
wildcard-append (c ∷ d ∷ q) = rw (wildcard-append (d ∷ q))

wildcard_sound : (p q : Bytes) → wildcard p ≡ some q → p ≡ q ++ b'#' ∷ []
unfolding wildcard
wildcard_sound [] q h = absurd (cc)
wildcard_sound (c ∷ []) q h = ground arith
wildcard_sound (c ∷ d ∷ p) q h = elim (Option-cases (wildcard (d ∷ p))) [
  | inl e ↦ absurd (ground (arith, e))
  | inr (r, e) ↦ ground (arith, e, wildcard_sound (d ∷ p) r e)
]

topic_match_lem :
    (p t : Bytes)
    → topic_match p t
      ≡ (if str_eq p t then true else elim (wildcard p) [ none ↦ false | some q ↦ starts_with q t ])
unfolding topic_match
topic_match_lem p t = refl

-- topic_match accepts a topic exactly if the pattern is that topic, or is some prefix of it and a
-- final '#'.
pub topic_match_iff :
    (pattern_ topic : Bytes)
    → (topic_match pattern_ topic ≡ true)
      ↔ ((pattern_ ≡ topic) ⊎ ((q r : Bytes) × (pattern_ ≡ q ++ b'#' ∷ []) × (topic ≡ q ++ r)))
topic_match_iff p t = (sound, complete)
  where
    sound : topic_match p t ≡ true → (p ≡ t) ⊎ ((q r : Bytes) × (p ≡ q ++ b'#' ∷ []) × (t ≡ q ++ r))
    sound h = elim (Bool-cases (str_eq p t)) [
      | inl same ↦ inl (str_eq_sound p t same)
      | inr other ↦ elim (Option-cases (wildcard p)) [
        | inl e ↦ absurd (ground (arith, topic_match_lem p t, e))
        | inr (q, e) ↦
            let (r, at) = starts_with_sound q t (ground (arith, topic_match_lem p t, e)) in
            inr (q, r, wildcard_sound p q e, at)
      ]
    ]

    complete :
        ((p ≡ t) ⊎ ((q r : Bytes) × (p ≡ q ++ b'#' ∷ []) × (t ≡ q ++ r))) → topic_match p t ≡ true
    complete (inl same) = rw (same, topic_match_lem, str_eq_refl)
    complete (inr (q, r, e, at)) =
        rw (e, at, topic_match_lem, wildcard-append, starts_with-append)
          (elim (Bool-cases (str_eq (q ++ b'#' ∷ []) (q ++ r))) [
            | inl same ↦ rw same
            | inr other ↦ rw other
          ])
