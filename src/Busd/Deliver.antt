-- ===== src/Busd/Deliver.antt =====
-- A message on its whole way: from bb_bus_publish through the daemon to the handler of bb_bus_poll.
use imx8mp_building_blocks.Base.{
  ℕ, zero, suc, ◌+◌, ◌-◌, ◌≤◌, ◌<◌, ◌≡◌, ◌≢◌, refl, ap, List, [], ◌∷◌, ◌++◌, ◌==◌, leb, ltb, arith,
  true, false, ◌&&◌, if◌then◌else◌, length, take, drop, All-append, length-append, some,
}
use imx8mp_building_blocks.Base.Bytes.{Bytes, codes}
use imx8mp_building_blocks.Base.Words.{is_neg}
use imx8mp_building_blocks.Bus.Lines.{newline, split_lines, split_line, Text, IsPart}
use imx8mp_building_blocks.Bus.Words.{space, skip_space, scan_word, scan_word-word, IsWord}
use imx8mp_building_blocks.Bus.Client.{
  Connection, publish_line, dispatch, cut_at_space, poll, max_line,
}
use imx8mp_building_blocks.Busd.Table.{
  Sub, Output, publish, pub_line, handle_pub, after_space, buf_size,
}
use imx8mp_building_blocks.Busd.Daemon.{handle_line}
use imx8mp_building_blocks.Busd.Publish.{copies, subscriptions, publish_exact}

take-short : (s : Bytes) (n : ℕ) → length s ≤ n → take n s ≡ s
take-short [] zero h = refl
take-short [] (suc n) h = refl
take-short (c ∷ s) zero h = absurd (omega arith)
take-short (c ∷ s) (suc n) h = ap (λ y. c ∷ y) (take-short s n (omega arith))

after_space-word : (w p : Bytes) → IsWord w → after_space (w ++ space ∷ p) ≡ p
unfolding after_space
after_space-word [] p h = refl
after_space-word (c ∷ w) p (hc, h) = ground (arith, after_space-word w p h)

cut_at_space-word : (w p : Bytes) → IsWord w → cut_at_space (w ++ space ∷ p) ≡ some (w, p)
unfolding cut_at_space
cut_at_space-word [] p h = refl
cut_at_space-word (c ∷ w) p (hc, h) = ground (arith, cut_at_space-word w p h)

-- A topic that is one word of the protocol.
pub record IsTopic (t : Bytes) : Type 0 where
  pub word : IsWord t
  pub text : Text t
  pub filled : 0 < length t
  pub short : length t ≤ 255

-- A payload on one line, which is more than white space.
pub record IsPayload (p : Bytes) : Type 0 where
  pub line : IsPart p
  pub filled : 0 < length (skip_space p)

-- What handle_pub does with the two conversions of its line.
scanned : ℕ → Bytes → List Sub → Bytes × Bytes → List Output
scanned fd line subs (topic, rest) =
    if ltb 0 (length topic) && ltb 0 (length (skip_space rest))
    then publish topic (after_space (drop 4 line)) fd subs
    else []

handle_pub_lem :
    (fd : ℕ) (line : Bytes) (subs : List Sub)
    → handle_pub fd line subs ≡ scanned fd line subs (scan_word 255 (drop 3 line))
unfolding handle_pub scanned
handle_pub_lem fd line subs = refl

skip_space-space : (p : Bytes) → skip_space (space ∷ p) ≡ skip_space p
unfolding skip_space
skip_space-space p = refl

handle_pub-line :
    (fd : ℕ) (t p : Bytes) (subs : List Sub)
    → IsTopic t
    → IsPayload p
    → handle_pub fd (codes "PUB " ++ t ++ space ∷ p) subs ≡ publish t p fd subs
handle_pub-line fd [] p subs ht hp = absurd (omega (arith, ht.filled))
handle_pub-line fd (c ∷ w) p subs ht hp =
    rw (handle_pub_lem, scan_word-word 255 c w p ht.word ht.short) rest
  where
    payload : ltb 0 (length (skip_space (space ∷ p))) ≡ true
    payload = rw skip_space-space (ground (arith, hp.filled))

    rest :
        scanned fd (codes "PUB " ++ (c ∷ w) ++ space ∷ p) subs (c ∷ w, space ∷ p)
        ≡ publish (c ∷ w) p fd subs
    rest =
        let named : ltb 0 (length (c ∷ w)) ≡ true = ground arith in
        unfold scanned in rw (payload, named, after_space-word (c ∷ w) p ht.word)

IsPart-word : (w : Bytes) → IsWord w → Text w → IsPart w
IsPart-word [] h n = tt
IsPart-word (c ∷ w) (hc, h) (nc, n) = ((nc, ground arith), IsPart-word w h n)

-- "PUB %s %s", with no newline yet.
abbrev pub request : Bytes → Bytes → Bytes
request t p = codes "PUB " ++ t ++ space ∷ p

module _ (t p : Bytes) (ht : IsTopic t) (hp : IsPayload p) where
  pub IsPart-request : IsPart (request t p)
  IsPart-request = All-append _ (codes "PUB ") (t ++ space ∷ p) (omega arith) (
      All-append _ t (space ∷ p) (IsPart-word t ht.word ht.text)
        ((omega arith, omega arith), hp.line))

  length-request : length (request t p) ≡ length t + length p + 5
  length-request = omega (arith, length-append t (space ∷ p))

  pub_line-request : pub_line t p ≡ request t p ++ newline ∷ []
  pub_line-request = refl

  length-pub_line : length (pub_line t p) ≡ length t + length p + 6
  length-pub_line = omega (arith, length-append (request t p) (newline ∷ []), length-request)

  pub publish_line-request : length t + length p + 6 < max_line → publish_line t p ≡ request t p
  unfolding publish_line
  publish_line-request fits =
      take-short (request t p) (max_line - 1) (omega (arith, length-request))

  handle_line-request :
      (fd : ℕ) (subs : List Sub) → handle_line fd (request t p) subs ≡ (subs, publish t p fd subs)
  unfolding handle_line
  handle_line-request fd subs = ap (λ out. (subs, out)) (handle_pub-line fd t p subs ht hp)

  dispatch-request : dispatch (request t p ∷ []) ≡ (t, p) ∷ []
  unfolding dispatch
  dispatch-request = rw (cut_at_space-word t p ht.word)

-- bb_bus_poll on data that fits its empty buffer.
poll_fresh :
    (selected : ℕ) (incoming : Bytes) (bus : Connection)
    → is_neg bus.fd ≡ false
    → is_neg selected ≡ false
    → selected ≢ 0
    → 0 < length incoming
    → length incoming < max_line
    → poll selected incoming bus []
      ≡ (0, (split_lines incoming).1, if bus.handler then dispatch (split_lines incoming).0 else [])
unfolding poll
poll_fresh selected incoming bus open_ answered some_ filled fits =
    let quiet : (selected == 0) ≡ false = ground arith in
    let read : (length incoming == 0) ≡ false = ground arith in
    rw (take-short incoming (max_line - 1 - 0) (omega arith), open_, answered, quiet, read)

-- A message whose topic is one word of at most 255 bytes and whose payload is one line with something other than white
-- space in it, short enough for the buffer of the client library: the line that bb_bus_publish sends makes the daemon send its own copy of it,
-- once for each matching subscription of a client and never back to the sender; and bb_bus_poll
-- of a client with a handler, on receiving that copy, makes one call, with that topic and payload.
pub end_to_end :
    (fd x selected : ℕ) (t p : Bytes) (subs : List Sub) (bus : Connection)
    → IsTopic t
    → IsPayload p
    → length t + length p + 6 < max_line
    → is_neg bus.fd ≡ false
    → bus.handler ≡ true
    → is_neg selected ≡ false
    → selected ≢ 0
    → (copies x (pub_line t p) (handle_line fd (publish_line t p) subs).1
        ≡ (if x == fd then 0 else subscriptions x t subs))
      × (poll selected (pub_line t p) bus [] ≡ (0, [], (t, p) ∷ []))
unfolding split_lines dispatch
end_to_end fd x selected t p subs bus ht hp fits open_ set_ answered some_ = (sent, got)
  where
    size : leb buf_size (length (pub_line t p)) ≡ false
    size = ground (arith, length-pub_line t p ht hp)

    sent :
        copies x (pub_line t p) (handle_line fd (publish_line t p) subs).1
        ≡ (if x == fd then 0 else subscriptions x t subs)
    sent =
        rw (publish_line-request t p ht hp fits, handle_line-request t p ht hp fd subs)
          (rw size at (publish_exact t p fd x subs).0)

    got : poll selected (pub_line t p) bus [] ≡ (0, [], (t, p) ∷ [])
    got =
        let line = split_line (request t p) [] (IsPart-request t p ht hp) in
        rw (
          poll_fresh selected (pub_line t p) bus open_ answered some_ (omega arith)
              (omega (arith, length-pub_line t p ht hp)),
          line,
          set_,
          dispatch-request t p ht hp,
        )
