-- ===== src/Json/Tests.antt =====
-- An object of two members in a buffer of 64 bytes.
use imx8mp_building_blocks.Base.{All, ◌≡◌, refl, Bool, true, some, List, [], ◌∷◌, arith, replicate}
use imx8mp_building_blocks.Base.Bytes.{Bytes, codes}
use imx8mp_building_blocks.Base.Words.{minus_one}
use imx8mp_building_blocks.Json.Writer.{
  Field, string, int, c_string, write_object, print_int, print, add_int, add_key, digits,
}
use imx8mp_building_blocks.Json.Object.{member, members, render}
use imx8mp_building_blocks.Json.Grammar.{IsPlain, Object, write_object-Object}

abbrev room : Bytes
room = replicate 64 0

abbrev cycles : List Field
cycles = int (codes "cycles") minus_one ∷ string (codes "type") (some (codes "blink_done")) ∷ []

abbrev done : List Field
done = string (codes "type") (some (codes "blink_done")) ∷ int (codes "cycles") 3 ∷ []

done-IsPlain : All IsPlain done
unfolding IsPlain
done-IsPlain = ground arith

write_object-Object_example :
    (c_string (write_object done room).buf ≡ codes "{\"type\":\"blink_done\",\"cycles\":3}")
    × Object (codes "{\"type\":\"blink_done\",\"cycles\":3}")
unfolding render members member print_int digits
write_object-Object_example = write_object-Object done room done-IsPlain (omega arith)

-- Two members into a buffer of 4 bytes: the first leaves the position behind the end, and the second
-- is written outside.
overrun_twice :
    (add_int (codes "b") 2 (
      add_int
        (codes "a")
        1
        (record { buf = replicate 4 0; pos = 0; overrun = Bool.false }))).overrun
    ≡ true
unfolding add_int add_key print print_int digits
overrun_twice = refl
