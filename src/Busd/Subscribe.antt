-- ===== src/Busd/Subscribe.antt =====
-- What SUB, UNSUB and the end of a client change in whom a topic reaches.
use imx8mp_building_blocks.Base.{
  ℕ, zero, suc, ◌+◌, ◌≤◌, ◌≡◌, refl, ap, List, [], ◌∷◌, ◌++◌, ◌==◌, ltb, arith, Bool, ◌&&◌,
  Bool-cases, ℕ_discrete, Option-cases, inl, inr, if◌then◌else◌, length, take, none, some,
}
use imx8mp_building_blocks.Base.Bytes.{Bytes, str_eq, str_eq_sound}
use imx8mp_building_blocks.Busd.Table.{
  Sub, find_sub, change_sub, subscribe, unsubscribe, purge, add_id, remove_id, topic_match,
  max_clients, max_subs, max_topic,
}
use imx8mp_building_blocks.Busd.Ids.{occ, occ-add_id, occ-remove_id, occ-purge}
use imx8mp_building_blocks.Busd.Publish.{subscriptions}

-- The entry that find_sub gives, as it is found and changed.
find_sub-topic : (w : Bytes) (subs : List Sub) (s : Sub) → find_sub w subs ≡ some s → s.topic ≡ w
unfolding find_sub
find_sub-topic w [] s h = absurd (cc)
find_sub-topic w (s' ∷ subs) s h = elim (Bool-cases (str_eq s'.topic w)) [
  | inl here ↦ ground (arith, here, str_eq_sound s'.topic w here)
  | inr other ↦ find_sub-topic w subs s (ground (arith, other))
]

-- How often `fd` stands in the first entry of the topic.
unfoldable pub subscribed : ℕ → Bytes → List Sub → ℕ
subscribed fd w subs = elim (find_sub w subs) [ none ↦ 0 | some s ↦ occ fd s.client_ids ]

-- Whether SUB finds room for a new id.
unfoldable pub has_room : Bytes → List Sub → Bool
has_room w subs = elim (find_sub w subs) [
  | none ↦ ltb (length subs) max_subs
  | some s ↦ ltb (length s.client_ids) max_clients
]

change_sub-subscriptions :
    (x : ℕ) (t w : Bytes) (g : List ℕ → List ℕ) (subs : List Sub) (s : Sub)
    → find_sub w subs ≡ some s
    → subscriptions x t (change_sub w g subs) + (if topic_match w t then occ x s.client_ids else 0)
      ≡ subscriptions x t subs + (if topic_match w t then occ x (g s.client_ids) else 0)
unfolding change_sub find_sub subscriptions
change_sub-subscriptions x t w g [] s h = absurd (cc)
change_sub-subscriptions x t w g (s' ∷ subs) s h = elim (Bool-cases (str_eq s'.topic w)) [
  | inl here ↦ ground (arith, here, ap (λ y. topic_match y t) (str_eq_sound s'.topic w here))
  | inr other ↦ ground (arith, other, change_sub-subscriptions x t w g subs s)
]

change_sub-none :
    (w : Bytes) (g : List ℕ → List ℕ) (subs : List Sub)
    → find_sub w subs ≡ none
    → change_sub w g subs ≡ subs
unfolding change_sub find_sub
change_sub-none w g [] h = refl
change_sub-none w g (s ∷ subs) h = ground (arith, change_sub-none w g subs)

subscriptions-append :
    (x : ℕ) (t : Bytes) (xs ys : List Sub)
    → subscriptions x t (xs ++ ys) ≡ subscriptions x t xs + subscriptions x t ys
unfolding subscriptions
subscriptions-append x t [] ys = omega arith
subscriptions-append x t (s ∷ xs) ys = omega (arith, subscriptions-append x t xs ys)

take-short : (w : Bytes) (n : ℕ) → length w ≤ n → take n w ≡ w
take-short [] zero h = refl
take-short [] (suc n) h = refl
take-short (c ∷ w) zero h = absurd (omega arith)
take-short (c ∷ w) (suc n) h = ap (λ y. c ∷ y) (take-short w n (omega arith))

-- SUB of a topic of at most 127 bytes gives the client one more subscription, if the topic has none
-- of the client yet and the table has room; otherwise, and for every other client, nothing changes.
pub subscribe_exact :
    (fd x : ℕ) (w t : Bytes) (subs : List Sub)
    → length w ≤ max_topic
    → subscriptions x t (subscribe fd w subs)
      ≡ subscriptions x t subs
        + (if x == fd && (has_room w subs && subscribed fd w subs == 0) && topic_match w t
            then 1
            else 0)
unfolding subscribe has_room subscribed subscriptions occ
subscribe_exact fd x w t subs short = elim (Option-cases (find_sub w subs)) [
  | inl e ↦
      rw (e, subscribe, take-short w max_topic short)
        (ground (
          arith,
          e,
          subscriptions-append x t subs (record { topic = w; client_ids = fd ∷ [] } ∷ []),
        ))
  | inr (s, e) ↦
      rw (e, subscribe)
        (ground (
          arith,
          e,
          change_sub-subscriptions x t w (add_id fd) subs s,
          occ-add_id x fd s.client_ids,
        ))
]

-- UNSUB takes one subscription of the client to the topic back, if there is one; otherwise, and for
-- every other client, nothing changes.
pub unsubscribe_exact :
    (fd x : ℕ) (w t : Bytes) (subs : List Sub)
    → subscriptions x t (unsubscribe fd w subs)
        + (if x == fd && ltb 0 (subscribed fd w subs) && topic_match w t then 1 else 0)
      ≡ subscriptions x t subs
unfolding unsubscribe subscribed
unsubscribe_exact fd x w t subs = elim (Option-cases (find_sub w subs)) [
  | inl e ↦ rw (change_sub-none w (remove_id fd) subs e) (ground (arith, e))
  | inr (s, e) ↦ elim (ℕ_discrete x fd) [
    | yes same ↦ rw same (
        ground (
          arith,
          e,
          change_sub-subscriptions fd t w (remove_id fd) subs s,
          occ-remove_id fd fd s.client_ids,
        ))
    | no ne ↦ ground (
      arith,
      e,
      change_sub-subscriptions x t w (remove_id fd) subs s,
      occ-remove_id x fd s.client_ids,
    )
  ]
]

-- A client that goes leaves no subscription, and every other client keeps its own.
pub subscriptions-purge :
    (fd x : ℕ) (t : Bytes) (subs : List Sub)
    → subscriptions x t (purge fd subs) ≡ (if x == fd then 0 else subscriptions x t subs)
unfolding purge subscriptions
subscriptions-purge fd x t [] = ground arith
subscriptions-purge fd x t (s ∷ subs) =
    ground (arith, subscriptions-purge fd x t subs, occ-purge x fd s.client_ids)
