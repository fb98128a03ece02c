-- ===== src/Busd/Valid.antt =====
-- The bounds of the subscription table, kept by every line.
use imx8mp_building_blocks.Base.{
  ℕ, ◌≤◌, ◌≡◌, refl, ap, List, [], ◌∷◌, ltb, arith, ◌&&◌, if_keeps, Bool-cases, ℕ_discrete,
  Option-cases, inl, inr, length, take, drop, All, All-append, length-append, length-take,
}
use imx8mp_building_blocks.Base.Bytes.{Bytes, str_eq, starts_with, codes}
use imx8mp_building_blocks.Bus.Words.{scan_word}
use imx8mp_building_blocks.Busd.Table.{
  Sub, Output, find_sub, change_sub, subscribe, unsubscribe, purge, add_id, remove_id, max_clients,
  max_subs, max_topic,
}
use imx8mp_building_blocks.Busd.Daemon.{handle_line, handle_lines}
use imx8mp_building_blocks.Busd.Ids.{
  occ, occ-add_id, occ-remove_id, occ-purge, length-add_id, length-remove_id, length-purge,
}

-- An entry within its arrays, with no id twice.
pub record IsSub (s : Sub) : Type 0 where
  pub short : length s.topic ≤ max_topic
  pub few : length s.client_ids ≤ max_clients
  pub once : (x : ℕ) → occ x s.client_ids ≤ 1

pub record IsTable (subs : List Sub) : Type 0 where
  pub bounded : length subs ≤ max_subs
  pub entries : All IsSub subs

length-change_sub :
    (topic : Bytes) (g : List ℕ → List ℕ) (subs : List Sub)
    → length (change_sub topic g subs) ≡ length subs
unfolding change_sub
length-change_sub topic g [] = refl
length-change_sub topic g (s ∷ subs) = ground (arith, length-change_sub topic g subs)

change_sub-IsSub :
    (topic : Bytes) (g : List ℕ → List ℕ)
    → ((s : Sub) → IsSub s → IsSub (record s { client_ids = g s.client_ids }))
    → (subs : List Sub) → All IsSub subs
    → All IsSub (change_sub topic g subs)
unfolding change_sub
change_sub-IsSub topic g keep [] h = tt
change_sub-IsSub topic g keep (s ∷ subs) (hs, h) = elim (Bool-cases (str_eq s.topic topic)) [
  | inl here ↦ rw here (keep s hs, h)
  | inr other ↦ rw other (hs, change_sub-IsSub topic g keep subs h)
]

add_id-IsSub :
    (fd : ℕ) (s : Sub) → IsSub s → IsSub (record s { client_ids = add_id fd s.client_ids })
add_id-IsSub fd s v = record {
  short = v.short;
  few = length-add_id fd s.client_ids v.few;
  once = λ x. elim (ℕ_discrete x fd) [
    | yes same ↦
        ground (arith, occ-add_id x fd s.client_ids, v.once x, ap (λ y. occ y s.client_ids) same)
    | no ne ↦ ground (arith, occ-add_id x fd s.client_ids, v.once x)
  ];
}

remove_id-IsSub :
    (fd : ℕ) (s : Sub) → IsSub s → IsSub (record s { client_ids = remove_id fd s.client_ids })
remove_id-IsSub fd s v = record {
  short = v.short;
  few = omega (arith, v.few, length-remove_id fd s.client_ids);
  once = λ x. omega (arith, occ-remove_id x fd s.client_ids, v.once x);
}

new-IsSub :
    (fd : ℕ) (topic : Bytes) → IsSub (record { topic = take max_topic topic; client_ids = fd ∷ [] })
unfolding occ
new-IsSub fd topic = record {
  short = omega (arith, length-take max_topic topic);
  few = omega arith;
  once = λ x. ground arith;
}

subscribe-IsTable :
    (fd : ℕ) (topic : Bytes) (subs : List Sub) → IsTable subs → IsTable (subscribe fd topic subs)
unfolding subscribe
subscribe-IsTable fd topic subs v = elim (Option-cases (find_sub topic subs)) [
  | inl e ↦
      rw (e, subscribe)
        (elim (Bool-cases (ltb (length subs) max_subs)) [
          | inl room ↦ rw room (record {
            bounded = ground (
              arith,
              room,
              length-append subs
                  (record { topic = take max_topic topic; client_ids = fd ∷ [] } ∷ []),
            );
            entries = All-append IsSub subs _ v.entries (new-IsSub fd topic, tt);
          })
          | inr full ↦ rw full v
        ])
  | inr (s, e) ↦
      rw (e, subscribe)
        (record {
          bounded = omega (arith, v.bounded, length-change_sub topic (add_id fd) subs);
          entries = change_sub-IsSub topic (add_id fd) (add_id-IsSub fd) subs v.entries;
        })
]

unsubscribe-IsTable :
    (fd : ℕ) (topic : Bytes) (subs : List Sub) → IsTable subs → IsTable (unsubscribe fd topic subs)
unfolding unsubscribe
unsubscribe-IsTable fd topic subs v = record {
  bounded = omega (arith, v.bounded, length-change_sub topic (remove_id fd) subs);
  entries = change_sub-IsSub topic (remove_id fd) (remove_id-IsSub fd) subs v.entries;
}

length-purge_subs : (fd : ℕ) (subs : List Sub) → length (purge fd subs) ≡ length subs
unfolding purge
length-purge_subs fd [] = refl
length-purge_subs fd (s ∷ subs) = omega (arith, length-purge_subs fd subs)

purge-IsSub : (fd : ℕ) (subs : List Sub) → All IsSub subs → All IsSub (purge fd subs)
unfolding purge
purge-IsSub fd [] h = tt
purge-IsSub fd (s ∷ subs) (hs, h) = (
  record {
    short = hs.short;
    few = omega (arith, hs.few, length-purge fd s.client_ids);
    once = λ x. ground (arith, occ-purge x fd s.client_ids, hs.once x);
  },
  purge-IsSub fd subs h,
)

pub purge-IsTable : (fd : ℕ) (subs : List Sub) → IsTable subs → IsTable (purge fd subs)
purge-IsTable fd subs v = record {
  bounded = omega (arith, v.bounded, length-purge_subs fd subs);
  entries = purge-IsSub fd subs v.entries;
}

abbrev AfterLine : List Sub × List Output → Type 0
AfterLine r = IsTable r.0

pub handle_line-IsTable :
    (fd : ℕ) (line : Bytes) (subs : List Sub) → IsTable subs → IsTable (handle_line fd line subs).0
unfolding handle_line
handle_line-IsTable fd line subs v = if_keeps AfterLine (starts_with (codes "PUB ") line) v (
    if_keeps AfterLine (starts_with (codes "SUB ") line && ltb 0 (length sub_topic))
      (subscribe-IsTable fd sub_topic subs v)
      (if_keeps AfterLine (starts_with (codes "UNSUB ") line && ltb 0 (length unsub_topic))
        (unsubscribe-IsTable fd unsub_topic subs v)
        (if_keeps AfterLine (str_eq line (codes "PING")) v v)))
  where
    sub_topic : Bytes
    sub_topic = (scan_word 255 (drop 3 line)).0

    unsub_topic : Bytes
    unsub_topic = (scan_word 255 (drop 5 line)).0

pub handle_lines-IsTable :
    (fd : ℕ) (lines : List Bytes) (subs : List Sub)
    → IsTable subs
    → IsTable (handle_lines fd lines subs).0
unfolding handle_lines
handle_lines-IsTable fd [] subs v = v
handle_lines-IsTable fd (line ∷ lines) subs v =
    handle_lines-IsTable fd lines (handle_line fd line subs).0 (handle_line-IsTable fd line subs v)
