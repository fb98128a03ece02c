-- ===== src/Hal/I2c.antt =====
-- hal/bb_hal_i2c.c: a bus of devices with addresses. What the driver is asked comes out as a list, what it answers
-- is an argument.
mod Tests
use imx8mp_building_blocks.Base.{
  ℕ, ◌^◌, ◌%◌, ◌==◌, ◌&&◌, ltb, Bool, true, false, Option, none, some, List, [], ◌∷◌, length, take,
  if◌then◌else◌,
}
use imx8mp_building_blocks.Base.Words.{minus_one}

-- `bb_i2c_t`; the descriptor is none for -1.
pub record I2c : Type 0 where
  pub fd : Option ℕ
  pub device : List ℕ
  pub addr : ℕ

-- A `struct i2c_msg`, with the bytes to write or the number of bytes to read.
pub data Message : Type 0 where
  writes : ℕ → List ℕ → Message
  reads : ℕ → ℕ → Message

-- bb_i2c_open
unfoldable pub i2c_open : Option ℕ → List ℕ → ℕ × I2c
i2c_open opens device =
    let i2c : I2c = record { fd = opens; device = take 63 device; addr = 0 } in
    elim opens [ none ↦ (minus_one, i2c) | some fd ↦ (0, i2c) ]

-- bb_i2c_set_addr, with whether the driver takes the address.
unfoldable pub set_addr : Bool → I2c → ℕ → ℕ × I2c
set_addr takes i2c a = elim i2c.fd [
  | none ↦ (minus_one, i2c)
  | some fd ↦ (if takes then (0, record i2c { addr = a }) else (minus_one, i2c))
]

-- bb_i2c_write, with the count that write returns, or none for an error.
unfoldable pub i2c_write : Bool → Option ℕ → I2c → ℕ → List ℕ → ℕ × I2c
unfolding set_addr
i2c_write takes n i2c a bytes =
    let (status, i2c') = set_addr takes i2c a in
    if status == 0
    then elim n [
      | none ↦ (minus_one, i2c')
      | some k ↦ (if k == length bytes then 0 else minus_one, i2c')
    ]
    else (minus_one, i2c')

-- bb_i2c_read, with the bytes that read gives, or none for an error.
unfoldable pub i2c_read : Bool → Option (List ℕ) → I2c → ℕ → ℕ → ℕ × I2c × List ℕ
unfolding set_addr
i2c_read takes got i2c a len =
    let (status, i2c') = set_addr takes i2c a in
    if status == 0
    then elim got [
      | none ↦ (minus_one, i2c', [])
      | some bytes ↦ (if length bytes == len then 0 else minus_one, i2c', bytes)
    ]
    else (minus_one, i2c', [])

-- The number of messages of bb_i2c_write_read.
abbrev pub nmsgs : ℕ → ℕ → ℕ
nmsgs wlen rlen =
    if ltb 0 wlen && ltb 0 rlen then 2 else if ltb 0 wlen then 1 else if ltb 0 rlen then 1 else 0

-- bb_i2c_write_read: the status, and the messages. The length in a message has 16 bits.
unfoldable pub write_read : Bool → I2c → ℕ → List ℕ → ℕ → ℕ × List Message
write_read takes i2c a wbuf rlen =
    let n = nmsgs (length wbuf) rlen in
    let msgs =
      take n (writes a (take (length wbuf % 2 ^ 16) wbuf) ∷ reads a (rlen % 2 ^ 16) ∷ []) in
    elim i2c.fd [
      | none ↦ (minus_one, [])
      | some fd ↦ if n == 0 then (0, []) else (if takes then 0 else minus_one, msgs)
    ]

-- bb_i2c_probe: a device that is there acknowledges a write of no byte.
unfoldable pub probe : Bool → Bool → I2c → ℕ
probe takes acknowledges i2c = elim i2c.fd [
  | none ↦ minus_one
  | some fd ↦ if takes && acknowledges then 0 else minus_one
]

-- bb_i2c_close: the descriptor that is closed.
unfoldable pub i2c_close : I2c → I2c × Option ℕ
i2c_close i2c = (record i2c { fd = none }, i2c.fd)
