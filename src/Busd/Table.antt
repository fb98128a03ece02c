-- ===== src/Busd/Table.antt =====
-- The subscriptions of services/bb-busd.c: matching, publishing, and the changes of the table. What the
-- daemon asks of the kernel comes out as a list of outputs.
use imx8mp_building_blocks.Base.{
  ℕ, zero, suc, ◌+◌, ◌-◌, Option, none, some, List, [], ◌∷◌, ◌++◌, ◌==◌, ltb, leb, if◌then◌else◌,
  Bool, true, false, ◌&&◌, ◌||◌, not, length, get_or, set, take, drop,
}
use imx8mp_building_blocks.Base.Bytes.{Bytes, codes, str_eq, starts_with}
use imx8mp_building_blocks.Bus.Lines.{newline}
use imx8mp_building_blocks.Bus.Words.{space, scan_word, skip_space}

abbrev pub max_clients : ℕ
max_clients = 64

abbrev pub max_subs : ℕ
max_subs = 256

abbrev pub buf_size : ℕ
buf_size = 8192

-- sizeof(subs[idx].topic) - 1
abbrev pub max_topic : ℕ
max_topic = 127

-- `sub_t`; `client_ids` holds the `count` ids in use.
pub record Sub : Type 0 where
  pub topic : Bytes
  pub client_ids : List ℕ

pub data Output : Type 0 where
  send : ℕ → Bytes → Output
  epoll_add : ℕ → ℕ → Output
  epoll_del : ℕ → Output
  close : ℕ → Output

-- find_sub, from index `i` on.
unfoldable pub find_sub : Bytes → List Sub → Option Sub
find_sub topic [] = none
find_sub topic (s ∷ subs) = if str_eq s.topic topic then some s else find_sub topic subs

-- The pattern without a final '#'.
unfoldable pub wildcard : Bytes → Option Bytes
wildcard [] = none
wildcard (c ∷ []) = if c == b'#' then some [] else none
wildcard (c ∷ d ∷ p) = elim (wildcard (d ∷ p)) [ none ↦ none | some q ↦ some (c ∷ q) ]

unfoldable pub topic_match : Bytes → Bytes → Bool
unfolding wildcard
topic_match pattern_ topic =
    if str_eq pattern_ topic
    then true
    else elim (wildcard pattern_) [ none ↦ false | some prefix ↦ starts_with prefix topic ]

-- "PUB %s %s\n"
abbrev pub pub_line : Bytes → Bytes → Bytes
pub_line topic payload = codes "PUB " ++ topic ++ space ∷ payload ++ newline ∷ []

-- The inner loop of publish: to every id but the sender's.
unfoldable pub send_to : Bytes → ℕ → List ℕ → List Output
send_to msg sender [] = []
send_to msg sender (cfd ∷ ids) =
    let rest = send_to msg sender ids in if cfd == sender then rest else send cfd msg ∷ rest

unfoldable pub send_subs : Bytes → Bytes → ℕ → List Sub → List Output
unfolding send_to topic_match
send_subs msg topic sender [] = []
send_subs msg topic sender (s ∷ subs) =
    let rest = send_subs msg topic sender subs in
    if topic_match s.topic topic then send_to msg sender s.client_ids ++ rest else rest

-- A message that does not fit the buffer is dropped.
unfoldable pub publish : Bytes → Bytes → ℕ → List Sub → List Output
unfolding send_subs
publish topic payload sender subs =
    let msg = pub_line topic payload in
    if leb buf_size (length msg) then [] else send_subs msg topic sender subs

-- What follows the first space; nothing, if there is none.
unfoldable pub after_space : Bytes → Bytes
after_space [] = []
after_space (c ∷ s) = let rest = after_space s in if c == space then s else rest

-- The two conversions of sscanf(line, "PUB %255s %8191[^\n]", …) >= 2.
unfoldable pub handle_pub : ℕ → Bytes → List Sub → List Output
unfolding scan_word skip_space publish after_space
handle_pub fd line subs =
    let (topic, rest) = scan_word 255 (drop 3 line) in
    if ltb 0 (length topic) && ltb 0 (length (skip_space rest))
    then publish topic (after_space (drop 4 line)) fd subs
    else []

unfoldable pub contains : ℕ → List ℕ → Bool
contains fd [] = false
contains fd (j ∷ ids) = j == fd || contains fd ids

-- A new id at the end, if there is room and it is not there.
unfoldable pub add_id : ℕ → List ℕ → List ℕ
unfolding contains
add_id fd ids =
    if ltb (length ids) max_clients && not (contains fd ids) then ids ++ fd ∷ [] else ids

-- A change of the first entry with the topic.
unfoldable pub change_sub : Bytes → (List ℕ → List ℕ) → List Sub → List Sub
change_sub topic g [] = []
change_sub topic g (s ∷ subs) =
    if str_eq s.topic topic
    then record s { client_ids = g s.client_ids } ∷ subs
    else s ∷ change_sub topic g subs

unfoldable pub subscribe : ℕ → Bytes → List Sub → List Sub
unfolding find_sub change_sub add_id
subscribe fd topic subs = elim (find_sub topic subs) [
  | some s ↦ change_sub topic (add_id fd) subs
  | none ↦
      if ltb (length subs) max_subs
      then subs ++ record { topic = take max_topic topic; client_ids = fd ∷ [] } ∷ []
      else subs
]

-- ids[j] = ids[--count]
abbrev pub drop_last {ℓ} : {A : Type ℓ} → List A → List A
drop_last [] = []
drop_last (x ∷ []) = []
drop_last (x ∷ y ∷ xs) = x ∷ drop_last (y ∷ xs)

abbrev pub swap_remove : List ℕ → ℕ → List ℕ
swap_remove ids j = drop_last (set ids j (get_or ids (length ids - 1) 0))

unfoldable pub index_of : ℕ → List ℕ → Option ℕ
index_of fd [] = none
index_of fd (j ∷ ids) =
    if j == fd then some 0 else elim (index_of fd ids) [ none ↦ none | some i ↦ some (suc i) ]

-- The first occurrence is overwritten by the last id.
unfoldable pub remove_id : ℕ → List ℕ → List ℕ
unfolding index_of
remove_id fd ids = elim (index_of fd ids) [ none ↦ ids | some j ↦ swap_remove ids j ]

unfoldable pub unsubscribe : ℕ → Bytes → List Sub → List Sub
unfolding change_sub remove_id
unsubscribe fd topic subs = change_sub topic (remove_id fd) subs

-- The loop of remove_client over one entry: the id at `j` goes while it is `fd`, else `j` moves on.
-- Each round brings `j` and the count one closer, so as many rounds as there are ids are enough.
unfoldable pub purge_from : ℕ → ℕ → ℕ → List ℕ → List ℕ
purge_from zero j fd ids = ids
purge_from (suc rounds) j fd ids =
    let gone = purge_from rounds j fd (swap_remove ids j) in
    let on = purge_from rounds (j + 1) fd ids in
    if ltb j (length ids) then (if get_or ids j 0 == fd then gone else on) else ids

unfoldable pub purge : ℕ → List Sub → List Sub
unfolding purge_from
purge fd [] = []
purge fd (s ∷ subs) =
    record s { client_ids = purge_from (length s.client_ids) 0 fd s.client_ids } ∷ purge fd subs
