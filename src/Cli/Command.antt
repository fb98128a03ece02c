-- ===== src/Cli/Command.antt =====
-- A command of bb-cli on its way to the LED block: the object, the line, the daemon, and the block's client.
use imx8mp_building_blocks.Base.{
  ℕ, ◌+◌, ◌<◌, ◌≤◌, ◌≡◌, ◌≢◌, ◌∙◌, ap, sym, true, false, some, List, [], ◌∷◌, ◌++◌, ◌==◌,
  if◌then◌else◌, arith, length, length-append, take_all,
}
use imx8mp_building_blocks.Base.Bytes.{Bytes, codes}
use imx8mp_building_blocks.Base.Words.{is_neg}
use imx8mp_building_blocks.Bus.Lines.{IsPart-Text, newline, IsPart, split_lines, split_line}
use imx8mp_building_blocks.Bus.Words.{skip_space}
use imx8mp_building_blocks.Bus.Client.{Connection, poll, publish_line}
use imx8mp_building_blocks.Busd.Table.{Sub, pub_line}
use imx8mp_building_blocks.Busd.Daemon.{handle_line}
use imx8mp_building_blocks.Busd.Publish.{copies, subscriptions}
use imx8mp_building_blocks.Busd.Deliver.{
  IsTopic, IsPayload, request, IsPart-request, publish_line-request, end_to_end,
}
use imx8mp_building_blocks.Json.Reader.{get_string}
use imx8mp_building_blocks.Json.Object.{render, write_object-reads}
use imx8mp_building_blocks.Json.Lookup.{IsPlain, get_string-first}
use imx8mp_building_blocks.Stdio.{snprintf}
use imx8mp_building_blocks.Cli.{pairs, cmd_led, cmd_pub, led_fields, led_topic, sent_line}

cmd_pub-fits :
    (topic payload : Bytes)
    → length topic + length payload < 8000
    → cmd_pub true topic payload ≡ (0, some (pub_line topic payload))
unfolding cmd_pub sent_line
cmd_pub-fits topic payload short =
    ap (λ l. (0, some (snprintf 8192 (l ++ newline ∷ []))))
      (take_all 8191 line (omega (arith, line_fits)))
    ∙ ap (λ l. (0, some l))
        (take_all 8191 (line ++ newline ∷ [])
          (omega (arith, line_fits, length-append line (newline ∷ []))))
  where
    line : Bytes
    line = codes "PUB " ++ (topic ++ (b' ' ∷ payload))

    line_fits : length line ≤ 8190
    line_fits = omega (arith, length-append topic (b' ' ∷ payload))

led_topic-IsTopic : IsTopic led_topic
led_topic-IsTopic = record {
  word = ground arith;
  text = omega arith;
  filled = omega arith;
  short = omega arith;
}

module _ (cmd : Bytes) (args : List Bytes) (room : length cmd ≤ 255) (plain : IsPlain cmd)
    (line : IsPart (render (led_fields cmd args)))
    (fits : length (render (led_fields cmd args)) < 4096) where
  abbrev payload : Bytes
  payload = render (led_fields cmd args)

  payload-IsPayload : IsPayload payload
  unfolding render skip_space
  payload-IsPayload = record { line = line; filled = omega arith }

  -- A command given to `bb-cli led`, of at most 255 bytes with neither quotes nor backslashes, with
  -- arguments such that the whole object has fewer than 4096 bytes and neither NUL nor newline: bb-cli
  -- sends one line; the daemon cuts that line, and sends each client a copy once for each of its subscriptions that match
  -- the LED block's topic, but not to bb-cli; bb_bus_poll of the block, on receiving it, makes one call
  -- with that topic and the object; and the block reads the command back from it.
  pub led_command-delivered :
      (buf : Bytes) (fd x selected : ℕ) (subs : List Sub) (bus : Connection)
      → length buf ≡ 4096
      → is_neg bus.fd ≡ false
      → bus.handler ≡ true
      → is_neg selected ≡ false
      → selected ≢ 0
      → (cmd_led true buf (cmd ∷ args) ≡ (0, some (pub_line led_topic payload)))
        × (split_lines (pub_line led_topic payload) ≡ (publish_line led_topic payload ∷ [], []))
        × (copies x
              (pub_line led_topic payload)
              (handle_line fd (publish_line led_topic payload) subs).1
            ≡ (if x == fd then 0 else subscriptions x led_topic subs))
        × (poll selected (pub_line led_topic payload) bus [] ≡ (0, [], (led_topic, payload) ∷ []))
        × (get_string payload (codes "cmd") ≡ some cmd)
  unfolding cmd_led split_lines
  led_command-delivered buf fd x selected subs bus sized open_ set_ answered some_ = (
    ap (cmd_pub true led_topic)
          (write_object-reads (led_fields cmd args) buf (omega arith) (IsPart-Text payload line))
        ∙ cmd_pub-fits led_topic payload (omega arith),
    cut,
    delivered.0,
    delivered.1,
    get_string-first (codes "cmd") cmd (pairs args) (omega arith) room plain,
  )
    where
      cut : split_lines (pub_line led_topic payload) ≡ (publish_line led_topic payload ∷ [], [])
      cut =
          split_line (request led_topic payload) []
            (IsPart-request led_topic payload led_topic-IsTopic payload-IsPayload)
          ∙ ap (λ l. (l ∷ [], []))
              (sym (
                publish_line-request led_topic payload led_topic-IsTopic payload-IsPayload
                  (omega arith)))

      delivered :
          (copies x
              (pub_line led_topic payload)
              (handle_line fd (publish_line led_topic payload) subs).1
            ≡ (if x == fd then 0 else subscriptions x led_topic subs))
          × (poll selected (pub_line led_topic payload) bus [] ≡ (0, [], (led_topic, payload) ∷ []))
      delivered =
          end_to_end fd x selected led_topic payload subs bus led_topic-IsTopic payload-IsPayload
            (omega arith) open_ set_ answered some_
