-- ===== src/Cli.antt =====
-- tools/bb-cli.c: the lines that the commands send, and what `sub` prints.
pub mod Command
pub mod Stream
mod Tests
use imx8mp_building_blocks.Base.{
  ℕ, suc, ◌+◌, ◌-◌, ◌^◌, ◌%◌, ◌==◌, leb, ltb, Bool, true, false, ◌&&◌, ◌||◌, Option, none, some,
  List, [], ◌∷◌, ◌++◌, if◌then◌else◌, length, take, drop, map,
}
use imx8mp_building_blocks.Base.Bytes.{Bytes, codes, str_eq, starts_with}
use imx8mp_building_blocks.Bus.Lines.{newline, split_lines}
use imx8mp_building_blocks.Bus.Words.{skip_space}
use imx8mp_building_blocks.Bus.Client.{cut_at_space}
use imx8mp_building_blocks.Json.Writer.{Field, string, int, write_object, c_string}
use imx8mp_building_blocks.Json.Reader.{is_digit, digits_from}
use imx8mp_building_blocks.Base.Words.{int_mod, int_sub}
use imx8mp_building_blocks.Stdio.{snprintf}
use imx8mp_building_blocks.Stdio.Scan.{after_digits}

-- What send_line gives to send().
unfoldable pub sent_line : Bytes → Bytes
sent_line line = snprintf 8192 (line ++ newline ∷ [])

-- A command: its exit status, and what it sends, if it can connect.
abbrev pub Exit : Type 0
Exit = ℕ × Option Bytes

-- cmd_ping, with what recv answers.
unfoldable pub cmd_ping : Bool → Option Bytes → Exit
unfolding sent_line
cmd_ping false answer = (1, none)
cmd_ping true none = (1, some (sent_line (codes "PING")))
cmd_ping true (some bytes) = (if length bytes == 0 then 1 else 0, some (sent_line (codes "PING")))

-- cmd_pub: the status of the sending is not tested.
unfoldable pub cmd_pub : Bool → Bytes → Bytes → Exit
unfolding sent_line
cmd_pub false topic payload = (1, none)
cmd_pub true topic payload =
    (0, some (sent_line (snprintf 8192 (codes "PUB " ++ (topic ++ (b' ' ∷ payload))))))

-- The request of cmd_sub.
unfoldable pub sub_request : Bytes → Bytes
unfolding sent_line
sub_request topic = sent_line (snprintf 8192 (codes "SUB " ++ topic))

-- How cmd_sub prints a line.
unfoldable pub show : Bytes → Bytes
unfolding cut_at_space
show line =
    if starts_with (codes "PUB ") line
    then elim (cut_at_space (drop 4 line)) [
      | none ↦ line
      | some (t, p) ↦ b'[' ∷ t ++ (codes "] " ++ p)
    ]
    else line

-- The loop of cmd_sub: `left` is the part of a line in its buffer, and each further text what recv
-- answers, if there is room for it. The loop ends when recv gives nothing, also for want of room.
unfoldable pub listen : Bytes → List Bytes → List Bytes
listen left [] = []
listen left (text ∷ texts) =
    let bytes = take (8191 - length left) text in
    let (lines, rest) = split_lines (left ++ bytes) in
    let more = listen rest texts in if length bytes == 0 then [] else map show lines ++ more

-- What strtol leaves of a text `s` behind the number that starts at `p`: all of it, if there is none.
unfoldable pub digits_end : Bytes → Bytes → Bytes
unfolding after_digits
digits_end s [] = s
digits_end s (c ∷ p) = if is_digit c then after_digits (c ∷ p) else s

unfoldable pub strtol_end : Bytes → Bytes
unfolding skip_space digits_end
strtol_end s = elim (skip_space s) [
  | [] ↦ s
  | c ∷ p ↦ if c == b'-' || c == b'+' then digits_end s p else digits_end s (c ∷ p)
]

-- A magnitude within the 64 bits of a `long`: strtol stops at LONG_MAX and at LONG_MIN.
abbrev saturate : ℕ → ℕ → ℕ
saturate limit n = if ltb n limit then n else limit

-- `(int)v` of what strtol reads.
unfoldable pub strtol_int : Bytes → ℕ
unfolding skip_space digits_from
strtol_int s = elim (skip_space s) [
  | [] ↦ 0
  | c ∷ p ↦
      if c == b'-'
      then int_sub 0 (saturate (2 ^ 63) (digits_from 0 p) % int_mod)
      else if c == b'+'
      then saturate (2 ^ 63 - 1) (digits_from 0 p) % int_mod
      else saturate (2 ^ 63 - 1) (digits_from 0 (c ∷ p)) % int_mod
]

-- The loop over the pairs of cmd_led.
unfoldable pub pairs : List Bytes → List Field
pairs [] = []
pairs (key ∷ []) = []
pairs (key ∷ value ∷ rest) = elim (strtol_end value) [
  | [] ↦ int key (strtol_int value) ∷ pairs rest
  | c ∷ s ↦ string key (some value) ∷ pairs rest
]

-- The members of the object.
abbrev pub led_fields : Bytes → List Bytes → List Field
led_fields cmd args = string (codes "cmd") (some cmd) ∷ pairs args

abbrev pub led_topic : Bytes
led_topic = codes "/dev/bb-led/cmd"

-- cmd_led, with what its buffer held before.
unfoldable pub cmd_led : Bool → Bytes → List Bytes → Exit
unfolding cmd_pub
cmd_led connects payload [] = (1, none)
cmd_led connects payload (cmd ∷ args) =
    cmd_pub connects led_topic (c_string (write_object (led_fields cmd args) payload).buf)

-- What main runs; `usage` ends with status 0.
pub data Call : Type 0 where
  usage ping : Call
  pub_message : Bytes → Bytes → Call
  sub_topic : Bytes → Call
  led : List Bytes → Call

-- The arguments behind the name of a command.
abbrev pub two_args : List Bytes → Call
two_args (topic ∷ payload ∷ rest) = pub_message topic payload
two_args args = usage

abbrev pub one_arg : List Bytes → Call
one_arg (topic ∷ rest) = sub_topic topic
one_arg [] = usage

abbrev pub led_args : List Bytes → Call
led_args [] = usage
led_args (cmd ∷ args) = led (cmd ∷ args)

unfoldable pub cli_main : List Bytes → Call
cli_main [] = usage
cli_main (cmd ∷ args) =
    if str_eq cmd (codes "ping")
    then ping
    else if str_eq cmd (codes "pub")
    then two_args args
    else if str_eq cmd (codes "sub")
    then one_arg args
    else if str_eq cmd (codes "led")
    then led_args args
    else usage
