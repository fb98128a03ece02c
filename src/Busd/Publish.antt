-- ===== src/Busd/Publish.antt =====
-- Whom a published message reaches, and how often.
use imx8mp_building_blocks.Base.{
  ℕ, ◌+◌, ◌≡◌, refl, List, [], ◌∷◌, ◌++◌, ◌==◌, leb, arith, ◌&&◌, ◌||◌, Bool-cases, inl, inr,
  if◌then◌else◌, length, All, All-append,
}
use imx8mp_building_blocks.Base.Bytes.{Bytes, str_eq, str_eq_refl}
use imx8mp_building_blocks.Busd.Table.{
  Sub, Output, send, epoll_add, epoll_del, close, topic_match, pub_line, send_to, send_subs,
  publish, buf_size,
}
use imx8mp_building_blocks.Busd.Ids.{occ}

-- How often `msg` is sent to `fd`.
unfoldable pub copies : ℕ → Bytes → List Output → ℕ
copies fd msg [] = 0
copies fd msg (send g m ∷ out) = (if g == fd && str_eq m msg then 1 else 0) + copies fd msg out
copies fd msg (epoll_add g i ∷ out) = copies fd msg out
copies fd msg (epoll_del g ∷ out) = copies fd msg out
copies fd msg (close g ∷ out) = copies fd msg out

pub copies-append :
    (fd : ℕ) (msg : Bytes) (xs ys : List Output)
    → copies fd msg (xs ++ ys) ≡ copies fd msg xs + copies fd msg ys
unfolding copies
copies-append fd msg [] ys = omega arith
copies-append fd msg (send g m ∷ xs) ys = omega (arith, copies-append fd msg xs ys)
copies-append fd msg (epoll_add g i ∷ xs) ys = copies-append fd msg xs ys
copies-append fd msg (epoll_del g ∷ xs) ys = copies-append fd msg xs ys
copies-append fd msg (close g ∷ xs) ys = copies-append fd msg xs ys

-- How many subscriptions of `fd` the topic matches.
unfoldable pub subscriptions : ℕ → Bytes → List Sub → ℕ
subscriptions fd topic [] = 0
subscriptions fd topic (s ∷ subs) =
    (if topic_match s.topic topic then occ fd s.client_ids else 0) + subscriptions fd topic subs

-- The output is a copy of `msg` to somebody.
abbrev pub IsCopy : Bytes → Output → Type 0
IsCopy msg o = (fd : ℕ) × (o ≡ send fd msg)

module _ (msg : Bytes) (sender : ℕ) where
  copies-send_to :
      (fd : ℕ) (ids : List ℕ)
      → copies fd msg (send_to msg sender ids) ≡ (if fd == sender then 0 else occ fd ids)
  unfolding copies send_to occ
  copies-send_to fd [] = ground arith
  copies-send_to fd (g ∷ ids) = ground (arith, copies-send_to fd ids, str_eq_refl msg)

  send_to-IsCopy : (ids : List ℕ) → All (IsCopy msg) (send_to msg sender ids)
  unfolding send_to
  send_to-IsCopy [] = tt
  send_to-IsCopy (g ∷ ids) = elim (Bool-cases (g == sender)) [
    | inl self ↦ rw self (send_to-IsCopy ids)
    | inr other ↦ rw other ((g, refl), send_to-IsCopy ids)
  ]

  copies-send_subs :
      (topic : Bytes) (fd : ℕ) (subs : List Sub)
      → copies fd msg (send_subs msg topic sender subs)
        ≡ (if fd == sender then 0 else subscriptions fd topic subs)
  unfolding send_subs subscriptions
  copies-send_subs topic fd [] = unfold copies in ground arith
  copies-send_subs topic fd (s ∷ subs) = ground (
    arith,
    copies-send_subs topic fd subs,
    copies-send_to fd s.client_ids,
    copies-append fd msg (send_to msg sender s.client_ids) (send_subs msg topic sender subs),
  )

  send_subs-IsCopy :
      (topic : Bytes) (subs : List Sub) → All (IsCopy msg) (send_subs msg topic sender subs)
  unfolding send_subs
  send_subs-IsCopy topic [] = tt
  send_subs-IsCopy topic (s ∷ subs) = elim (Bool-cases (topic_match s.topic topic)) [
    | inl yes_it ↦ rw yes_it (
        All-append (IsCopy msg) (send_to msg sender s.client_ids) _ (send_to-IsCopy s.client_ids)
          (send_subs-IsCopy topic subs))
    | inr no_it ↦ rw no_it (send_subs-IsCopy topic subs)
  ]

-- publish sends nothing but copies of the line, and sends each client one for each of its matching
-- subscriptions; the sender gets none, and nobody does if the line does not fit the buffer.
pub publish_exact :
    (topic payload : Bytes) (sender fd : ℕ) (subs : List Sub)
    → (copies fd (pub_line topic payload) (publish topic payload sender subs) ≡ (
        if leb buf_size (length (pub_line topic payload)) || fd == sender
        then 0
        else subscriptions fd topic subs))
      × All (IsCopy (pub_line topic payload)) (publish topic payload sender subs)
unfolding publish copies
publish_exact topic payload sender fd subs =
    elim (Bool-cases (leb buf_size (length (pub_line topic payload)))) [
      | inl long ↦ rw long (refl, tt)
      | inr fits ↦ rw fits (
        copies-send_subs (pub_line topic payload) sender topic fd subs,
        send_subs-IsCopy (pub_line topic payload) sender topic subs,
      )
    ]
