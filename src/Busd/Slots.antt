-- ===== src/Busd/Slots.antt =====
-- The array of clients of services/bb-busd.c: what stands in its slots after a client has gone.
use imx8mp_building_blocks.Base.{
  ℕ, zero, suc, ◌+◌, ◌-◌, ◌≤◌, ◌<◌, ◌≡◌, ◌∙◌, refl, ap, List, [], ◌∷◌, ◌++◌, arith, inl, inr,
  Bool-cases, if◌then◌else◌, length, get_or, take, drop, length-take, ltb,
}
use imx8mp_building_blocks.Base.Words.{int_lt, int_sub}
use imx8mp_building_blocks.Busd.Table.{epoll_del, close, max_clients}
use imx8mp_building_blocks.Busd.Daemon.{Client, Bus, no_client, compact, remove_client}

module _ {ℓ} {A : Type ℓ} where
  get_or-append_left :
      (xs ys : List A) (i : ℕ) (d : A) → i < length xs → get_or (xs ++ ys) i d ≡ get_or xs i d
  get_or-append_left [] ys i d h = absurd (omega arith)
  get_or-append_left (x ∷ xs) ys zero d h = refl
  get_or-append_left (x ∷ xs) ys (suc i) d h = get_or-append_left xs ys i d (omega arith)

  get_or-append_right :
      (xs ys : List A) (i : ℕ) (d : A)
      → length xs ≤ i
      → get_or (xs ++ ys) i d ≡ get_or ys (i - length xs) d
  get_or-append_right [] ys i d h = ap (λ k. get_or ys k d) (omega arith)
  get_or-append_right (x ∷ xs) ys zero d h = absurd (omega arith)
  get_or-append_right (x ∷ xs) ys (suc i) d h =
      get_or-append_right xs ys i d (omega arith) ∙ ap (λ k. get_or ys k d) (omega arith)

  get_or-take : (n i : ℕ) (xs : List A) (d : A) → i < n → get_or (take n xs) i d ≡ get_or xs i d
  get_or-take zero i xs d h = absurd (omega arith)
  get_or-take (suc n) i [] d h = refl
  get_or-take (suc n) zero (x ∷ xs) d h = refl
  get_or-take (suc n) (suc i) (x ∷ xs) d h = get_or-take n i xs d (omega arith)

  get_or-drop :
      (n i k : ℕ) (xs : List A) (d : A) → n + i ≡ k → get_or (drop n xs) i d ≡ get_or xs k d
  get_or-drop zero i k xs d h = ap (λ m. get_or xs m d) (omega arith)
  get_or-drop (suc n) i k [] d h = refl
  get_or-drop (suc n) i zero (x ∷ xs) d h = absurd (omega arith)
  get_or-drop (suc n) i (suc k) (x ∷ xs) d h = get_or-drop n i k xs d (omega arith)

  length-drop : (n : ℕ) (xs : List A) → length (drop n xs) ≡ length xs - n
  length-drop zero xs = omega arith
  length-drop (suc n) [] = omega arith
  length-drop (suc n) (x ∷ xs) = omega (arith, length-drop n xs)

-- The part of a compacted array from the slot of the client that went.
abbrev rest : List Client → ℕ → ℕ → List Client
rest cs idx n = take (n - idx - 1) (drop (idx + 1) cs) ++ drop (n - 1) cs

module _ (cs : List Client) (idx n : ℕ) (room : n ≤ length cs) (live : idx < n) where
  compact-before : (k : ℕ) → k < idx → get_or (compact cs idx n) k no_client ≡ get_or cs k no_client
  compact-before k lt =
      get_or-append_left (take idx cs) (rest cs idx n) k no_client
        (omega (arith, length-take idx cs))
      ∙ get_or-take idx k cs no_client lt

  compact-behind :
      (k : ℕ)
      → idx ≤ k
      → k + 1 < n
      → get_or (compact cs idx n) k no_client ≡ get_or cs (k + 1) no_client
  compact-behind k from lt =
      get_or-append_right (take idx cs) (rest cs idx n) k no_client
        (omega (arith, length-take idx cs))
      ∙ get_or-append_left (take (n - idx - 1) (drop (idx + 1) cs)) (drop (n - 1) cs)
          (k - length (take idx cs)) no_client
          (omega (
            arith,
            length-take idx cs,
            length-take (n - idx - 1) (drop (idx + 1) cs),
            length-drop (idx + 1) cs,
          ))
      ∙ get_or-take (n - idx - 1) (k - length (take idx cs)) (drop (idx + 1) cs) no_client
          (omega (arith, length-take idx cs))
      ∙ get_or-drop (idx + 1) (k - length (take idx cs)) (k + 1) cs no_client
          (omega (arith, length-take idx cs))

-- When one of at most 64 clients goes, the clients ahead of it keep their slots, and each client behind
-- it moves one slot down. All that the kernel is told is to forget and close the descriptor of the
-- one that went: the event data of the moved clients stays what it was, the slot they have left.
pub remove_client_moves :
    (idx : ℕ) (b : Bus)
    → b.num_clients ≤ max_clients
    → length b.clients ≡ max_clients
    → idx < b.num_clients
    → ((k : ℕ)
        → k + 1 < b.num_clients
        → get_or (remove_client idx b).0.clients k no_client
          ≡ get_or b.clients (if ltb k idx then k else k + 1) no_client)
      × ((remove_client idx b).0.num_clients + 1 ≡ b.num_clients)
      × ((remove_client idx b).1
          ≡ epoll_del (get_or b.clients idx no_client).fd
            ∷ close (get_or b.clients idx no_client).fd
            ∷ [])
unfolding remove_client
remove_client_moves idx b few array live = (slots, omega arith, refl)
  where
    one_less : int_sub b.num_clients 1 ≡ b.num_clients - 1
    one_less = omega arith

    slots :
        (k : ℕ)
        → k + 1 < b.num_clients
        → get_or (remove_client idx b).0.clients k no_client
          ≡ get_or b.clients (if ltb k idx then k else k + 1) no_client
    slots k lt = elim (Bool-cases (int_lt idx (int_sub b.num_clients 1))) [
      | inl inner ↦ rw inner (elim (Bool-cases (ltb k idx)) [
        | inl ahead ↦
            rw ahead
              (compact-before b.clients idx b.num_clients (omega arith) live k (ground arith))
        | inr behind ↦
            rw behind
              (compact-behind b.clients idx b.num_clients (omega arith) live k (ground arith) lt)
      ])
      | inr last ↦ rw last (ground (arith, one_less))
    ]
