-- ===== src/Led.antt =====
-- blocks/bb-led/main.c and hal/bb_hal_led.c: the block that drives the status LED.
pub mod Blink
mod Tests
use imx8mp_building_blocks.Base.{
  ℕ, ◌+◌, ◌%◌, ◌==◌, ltb, Bool, true, false, ◌&&◌, ◌||◌, Option, none, some, List, [], ◌∷◌, ◌++◌,
  if◌then◌else◌, take, replicate,
}
use imx8mp_building_blocks.Base.Bytes.{Bytes, codes, str_eq}
use imx8mp_building_blocks.Base.Words.{minus_one, is_neg, int_lt, int_mod}
use imx8mp_building_blocks.Board.{Board, devices_of}
use imx8mp_building_blocks.Json.Writer.{Field, string, int, write_object, c_string}
use imx8mp_building_blocks.Json.Reader.{get_string, get_int}

-- `bb_led_t`: what its sysfs files hold. `present` tells whether they can be written.
pub record Sysfs : Type 0 where
  pub name : Bytes
  pub max_brightness : ℕ
  pub present : Bool
  pub brightness : ℕ
  pub trigger : Bytes

-- bb_led_open: what the file of the maximum holds, if it can be read, whether the LED is there, and what
-- its two files hold.
unfoldable pub led_open : Bytes → Option ℕ → Bool → ℕ → Bytes → ℕ × Sysfs
led_open name max present brightness trigger = (
  if present then 0 else minus_one,
  record {
    name = take 63 name;
    max_brightness = elim max [ none ↦ 1 | some n ↦ n ];
    present = present;
    brightness = 0;
    trigger = [];
  },
)

unfoldable pub set_brightness : ℕ → Sysfs → ℕ × Sysfs
set_brightness value led =
    if led.present then (0, record led { brightness = value }) else (minus_one, led)

unfoldable pub set_trigger : Bytes → Sysfs → ℕ × Sysfs
set_trigger trigger led =
    if led.present then (0, record led { trigger = trigger }) else (minus_one, led)

unfoldable pub led_on : Sysfs → ℕ × Sysfs
unfolding set_brightness
led_on led = set_brightness led.max_brightness led

unfoldable pub led_off : Sysfs → ℕ × Sysfs
unfolding set_brightness
led_off led = set_brightness 0 led

-- The static state of the block.
pub record Led : Type 0 where
  pub sysfs : Sysfs
  pub blink_active : Bool
  pub on_ms : ℕ
  pub off_ms : ℕ
  pub count : ℕ

-- What a command makes the block do besides: publish an event, publish its state, or start the
-- blinking thread.
pub data Action : Type 0 where
  event : Bytes → Action
  publish_running : Action
  spawn_blink : Action

abbrev pub event_of : ℕ → List Field → Bytes
event_of size fields = c_string (write_object fields (replicate size 0)).buf

abbrev pub switched : (Sysfs → ℕ × Sysfs) → Led → Led
switched f l = record l { sysfs = (f l.sysfs).1; blink_active = false }

unfoldable pub on_blink : Bytes → Led → Led × List Action
unfolding get_int write_object c_string
on_blink payload l =
    let l' : Led = record l {
      blink_active = true;
      on_ms = get_int payload (codes "on_ms") 500;
      off_ms = get_int payload (codes "off_ms") 500;
      count = get_int payload (codes "count") 0;
    } in
    (
      l',
      event (
            event_of 256 (
              string (codes "type") (some (codes "blink_start"))
              ∷ int (codes "on_ms") l'.on_ms
              ∷ int (codes "off_ms") l'.off_ms
              ∷ int (codes "count") l'.count
              ∷ []))
          ∷ spawn_blink
          ∷ [],
    )

-- get_string gives its static buffer: the second call overwrites what the first one gave.
unfoldable pub on_solid : Bytes → Led → Led × List Action
unfolding get_string led_on led_off write_object c_string
on_solid payload l =
    let state = get_string payload (codes "state") in
    let off : Bool = elim state [ none ↦ false | some s ↦ str_eq s (codes "off") ] in
    let shown : Bytes = elim state [ none ↦ codes "on" | some s ↦ s ] in
    (
      if off then switched led_off l else switched led_on l,
      event (
            event_of 256 (
              string (codes "type") (some (codes "solid"))
              ∷ string (codes "state") (some shown)
              ∷ []))
          ∷ [],
    )

unfoldable pub on_cmd : Bytes → Led → Led × List Action
unfolding get_string on_blink on_solid set_trigger led_off write_object c_string
on_cmd payload l = elim (get_string payload (codes "cmd")) [
  | none ↦ (l, [])
  | some cmd ↦
      if str_eq cmd (codes "blink")
      then on_blink payload l
      else if str_eq cmd (codes "solid")
      then on_solid payload l
      else if str_eq cmd (codes "heartbeat")
      then (
        switched (set_trigger (codes "heartbeat")) l,
        event (
              event_of 256 (
                string (codes "type") (some (codes "mode"))
                ∷ string (codes "mode") (some (codes "heartbeat"))
                ∷ []))
            ∷ [],
      )
      else if str_eq cmd (codes "status")
      then (l, publish_running ∷ [])
      else if str_eq cmd (codes "stop")
      then (
        switched led_off l,
        event (event_of 128 (string (codes "type") (some (codes "stopped")) ∷ [])) ∷ [],
      )
      else (l, [])
]

-- What `g_blink_active` is when a round of the blinking thread reads it.
pub record Reads : Type 0 where
  pub at_test : Bool
  pub after_on : Bool
  pub after_off : Bool

-- blink_thread over a row of rounds: whether it has ended, the cycles, and the brightness written.
unfoldable pub blink : ℕ → List Reads → ℕ → Bool × ℕ × List Bool
blink count [] cycles = (false, cycles, [])
blink count (r ∷ rounds) cycles =
    let (ended, n, writes) = blink count rounds ((cycles + 1) % int_mod) in
    if r.at_test && (count == 0 || int_lt cycles count)
    then (if r.after_on
        then (if r.after_off
            then (ended, n, true ∷ false ∷ writes)
            else (true, cycles, true ∷ false ∷ []))
        else (true, cycles, true ∷ []))
    else (true, cycles, [])

-- The event that the blinking thread publishes at its end.
unfoldable pub blink_done : ℕ → Bytes
unfolding write_object c_string
blink_done cycles =
    event_of 256
      (string (codes "type") (some (codes "blink_done")) ∷ int (codes "cycles") cycles ∷ [])

-- init, with what bb_led_open meets. The name of the LED is the board's.
unfoldable pub block_init : Board → Option ℕ → Bool → Led → ℕ × Led
unfolding led_open set_trigger
block_init b max present l =
    let (status, led) = led_open (devices_of b).led_heartbeat max present 0 [] in
    if is_neg status
    then (minus_one, record l { sysfs = led })
    else (0, record l { sysfs = (set_trigger (codes "none") led).1 })

-- stop
unfoldable pub block_stop : Led → Led
unfolding led_off
block_stop l = switched led_off l
