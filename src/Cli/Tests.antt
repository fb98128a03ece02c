-- ===== src/Cli/Tests.antt =====
-- A command to the LED block, and a stream in two pieces.
use imx8mp_building_blocks.Base.{
  ◌≤◌, ◌≡◌, ◌==◌, refl, true, some, List, [], ◌∷◌, ◌++◌, if◌then◌else◌, arith, replicate, length,
}
use imx8mp_building_blocks.Base.Bytes.{Bytes, codes}
use imx8mp_building_blocks.Base.Words.{minus_one}
use imx8mp_building_blocks.Bus.Client.{Connection, poll, publish_line}
use imx8mp_building_blocks.Bus.Lines.{split_lines, IsPart}
use imx8mp_building_blocks.Busd.Table.{pub_line}
use imx8mp_building_blocks.Busd.Daemon.{handle_line}
use imx8mp_building_blocks.Busd.Publish.{copies, subscriptions}
use imx8mp_building_blocks.Json.Writer.{digits, print_int}
use imx8mp_building_blocks.Json.Reader.{get_string, digits_from}
use imx8mp_building_blocks.Json.Object.{render, members}
use imx8mp_building_blocks.Led.{Led, on_cmd, switched, led_off}
use imx8mp_building_blocks.Cli.{
  cmd_led, led_fields, led_topic, pairs, strtol_end, strtol_int, show, listen, cli_main, usage,
}
use imx8mp_building_blocks.Cli.Command.{led_command-delivered}

abbrev arguments : List Bytes
arguments = codes "on_ms" ∷ codes "200" ∷ []

abbrev object : Bytes
object = render (led_fields (codes "blink") arguments)

object_text : object ≡ codes "{\"cmd\":\"blink\",\"on_ms\":200}"
unfolding render pairs strtol_end strtol_int digits_from print_int digits members
object_text = refl

object-IsPart : IsPart object
unfolding render pairs strtol_end strtol_int digits_from print_int digits members
object-IsPart = omega arith

object_fits : length object ≤ 4095
unfolding render pairs strtol_end strtol_int digits_from print_int digits members
object_fits = omega arith

-- A value beyond a `long` is cut to LONG_MAX, whose low 32 bits are those of -1.
beyond_long : strtol_int (codes "18446744073709551616") ≡ minus_one
unfolding strtol_int digits_from
beyond_long = refl

abbrev connection : Connection
connection = record { fd = 4; socket_path = codes "/run/bb-bus.sock"; handler = true }

led_command-delivered_example :
    (cmd_led true (replicate 4096 0) (codes "blink" ∷ arguments)
      ≡ (0, some (pub_line led_topic object)))
    × (split_lines (pub_line led_topic object) ≡ (publish_line led_topic object ∷ [], []))
    × (copies 9 (pub_line led_topic object) (handle_line 5 (publish_line led_topic object) []).1
        ≡ (if 9 == 5 then 0 else subscriptions 9 led_topic []))
    × (poll 1 (pub_line led_topic object) connection [] ≡ (0, [], (led_topic, object) ∷ []))
    × (get_string object (codes "cmd") ≡ some (codes "blink"))
led_command-delivered_example =
    led_command-delivered (codes "blink") arguments (omega arith) (omega arith) object-IsPart
      (omega (arith, object_fits)) (replicate 4096 0) 5 9 1 [] connection refl refl refl refl
      (omega arith)

abbrev pieces : List Bytes
pieces = codes "PUB /t 1" ∷ (codes "2" ++ 10 ∷ codes "PONG" ++ 10 ∷ []) ∷ []

printed : listen [] pieces ≡ codes "[/t] 12" ∷ codes "PONG" ∷ []
unfolding listen split_lines show
printed = refl

incomplete : cli_main (codes "pub" ∷ codes "/t" ∷ []) ≡ usage
unfolding cli_main
incomplete = refl

-- The LED block on the command `stop`, which bb-cli sends as this object.
stopped : (l : Led) → (on_cmd (codes "{\"cmd\":\"stop\"}") l).0 ≡ switched led_off l
unfolding on_cmd
stopped l = refl
