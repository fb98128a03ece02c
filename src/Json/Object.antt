-- ===== src/Json/Object.antt =====
-- What the writer of libbb/bb_json.c leaves in a buffer that is large enough for the whole object.
use imx8mp_building_blocks.Base.{
  ℕ, ◌+◌, ◌<◌, ◌≡◌, ◌≢◌, ◌∙◌, refl, ap, sym, List, [], ◌∷◌, ◌++◌, if◌then◌else◌, arith,
  append_assoc, append-nil, length, length-set, length-append, All,
}
use imx8mp_building_blocks.Base.Bytes.{Bytes, codes}
use imx8mp_building_blocks.Json.Writer.{
  Writer, json_init, put, start_object, trim, end_object, print, add_key, add_string, add_int,
  add_bool, text_of, print_int, c_string, Field, string, int, bool, add, add_all, write_object,
}
use imx8mp_building_blocks.Json.Exact.{
  Holds, print-Holds, put-Holds, trim-Holds, trim-brace, terminate-reads,
}

-- What a member reads as.
unfoldable pub member : Field → Bytes
member (string key val) = b'"' ∷ key ++ b'"' ∷ b':' ∷ b'"' ∷ text_of val ++ b'"' ∷ []
member (int key val) = b'"' ∷ key ++ b'"' ∷ b':' ∷ print_int val
member (bool key val) = b'"' ∷ key ++ b'"' ∷ b':' ∷ (if val then codes "true" else codes "false")

-- The members with commas between them.
unfoldable pub members : List Field → Bytes
unfolding member
members [] = []
members (f ∷ []) = member f
members (f ∷ g ∷ fs) = member f ++ b',' ∷ members (g ∷ fs)

-- The object that a reader of the code expects.
unfoldable pub render : List Field → Bytes
unfolding members
render fs = b'{' ∷ members fs ++ b'}' ∷ []

two_prints-Holds :
    (x y z : Bytes) (w : Writer) (t : Bytes) (room : ℕ)
    → x ++ y ≡ z
    → Holds w t room
    → length t + length z < room
    → Holds (print y (print x w)) (t ++ z) room
two_prints-Holds x y z w t room e v fits =
    let parts : length x + length y ≡ length z = sym (length-append x y) ∙ ap length e in
    let joined : (t ++ x) ++ y ≡ t ++ z = append_assoc t x y ∙ ap (λ u. t ++ u) e in
    rw joined at (
      print-Holds y (print x w) (t ++ x) room (print-Holds x w t room v (omega (arith, parts)))
        (omega (arith, parts, length-append t x)))

add-Holds :
    (f : Field) (w : Writer) (t : Bytes) (room : ℕ)
    → Holds w t room
    → length t + length (member f ++ b',' ∷ []) < room
    → Holds (add f w) (t ++ (member f ++ b',' ∷ [])) room
unfolding add add_string add_int add_bool add_key member
add-Holds (string key val) w t room v fits =
    two_prints-Holds (b'"' ∷ key ++ b'"' ∷ b':' ∷ []) (b'"' ∷ text_of val ++ b'"' ∷ b',' ∷ []) _ w t
      room (simp append_assoc) v fits
add-Holds (int key val) w t room v fits =
    two_prints-Holds (b'"' ∷ key ++ b'"' ∷ b':' ∷ []) (print_int val ++ b',' ∷ []) _ w t room
      (simp append_assoc) v fits
add-Holds (bool key val) w t room v fits =
    two_prints-Holds (b'"' ∷ key ++ b'"' ∷ b':' ∷ [])
      ((if val then codes "true" else codes "false") ++ b',' ∷ []) _ w t room (simp append_assoc) v
      fits

-- The members with a comma behind each.
commas : List Field → Bytes
commas [] = []
commas (f ∷ fs) = (member f ++ b',' ∷ []) ++ commas fs

add_all-Holds :
    (fs : List Field) (w : Writer) (t : Bytes) (room : ℕ)
    → Holds w t room
    → length t + length (commas fs) < room
    → Holds (add_all fs w) (t ++ commas fs) room
unfolding add_all commas
add_all-Holds [] w t room v fits = rw append-nil v
add_all-Holds (f ∷ fs) w t room v fits =
    let m : Bytes = member f ++ b',' ∷ [] in
    rw (append_assoc t m (commas fs)) at (
      add_all-Holds fs (add f w) (t ++ m) room
        (add-Holds f w t room v (omega (arith, length-append m (commas fs))))
        (omega (arith, length-append m (commas fs), length-append t m)))

commas-members : (f : Field) (fs : List Field) → commas (f ∷ fs) ≡ members (f ∷ fs) ++ b',' ∷ []
unfolding commas members
commas-members f [] = append-nil (member f ++ b',' ∷ [])
commas-members f (g ∷ fs) =
    ap (λ u. (member f ++ b',' ∷ []) ++ u) (commas-members g fs) ∙ simp append_assoc

init-Holds : (buf : Bytes) → 0 < length buf → Holds (json_init buf) [] (length buf)
unfolding json_init
init-Holds buf h = record {
  sized = length-set buf 0 0;
  at_end = refl;
  text = refl;
  inside = ground arith;
}

-- The string in the buffer after the object is closed over the text `t`.
end_object-reads :
    (w : Writer) (t : Bytes) (room : ℕ)
    → Holds (trim w) t room
    → length t + 1 < room
    → All (λ c. c ≢ 0) (t ++ b'}' ∷ [])
    → c_string (end_object w).buf ≡ t ++ b'}' ∷ []
unfolding end_object
end_object-reads w t room v fits clean =
    terminate-reads (put b'}' (trim w)) (t ++ b'}' ∷ []) room
      (put-Holds b'}' (trim w) t room v (omega arith)) (omega (arith, length-append t (b'}' ∷ [])))
      clean

-- The calls that write an object of any members leave them in the buffer in order, the keys and strings as they are
-- between quotes, ended by a NUL, if the text and the NUL fit and no NUL is in it.
pub write_object-reads :
    (fs : List Field) (buf : Bytes)
    → length (render fs) < length buf
    → All (λ c. c ≢ 0) (render fs)
    → c_string (write_object fs buf).buf ≡ render fs
unfolding write_object start_object add_all render members
write_object-reads [] buf fits clean =
    end_object-reads w (b'{' ∷ []) (length buf) (rw (trim-brace w (length buf) v) v) (omega arith)
      clean
  where
    w : Writer
    w = put b'{' (json_init buf)

    v : Holds w (b'{' ∷ []) (length buf)
    v = put-Holds b'{' (json_init buf) [] (length buf) (init-Holds buf (omega arith)) (omega arith)
write_object-reads (f ∷ fs) buf fits clean =
    end_object-reads (add_all (f ∷ fs) w) (b'{' ∷ members (f ∷ fs)) (length buf) trimmed
      (omega (arith, size)) clean
  where
    w : Writer
    w = put b'{' (json_init buf)

    size : length (members (f ∷ fs) ++ b'}' ∷ []) ≡ length (members (f ∷ fs)) + 1
    size = length-append (members (f ∷ fs)) (b'}' ∷ [])

    v : Holds w (b'{' ∷ []) (length buf)
    v = put-Holds b'{' (json_init buf) [] (length buf) (init-Holds buf (omega arith)) (omega arith)

    same : commas (f ∷ fs) ≡ members (f ∷ fs) ++ b',' ∷ []
    same = commas-members f fs

    filled : Holds (add_all (f ∷ fs) w) ((b'{' ∷ members (f ∷ fs)) ++ b',' ∷ []) (length buf)
    filled = rw same at (
        add_all-Holds (f ∷ fs) w (b'{' ∷ []) (length buf) v
          (omega (arith, size, ap length same, length-append (members (f ∷ fs)) (b',' ∷ []))))

    trimmed : Holds (trim (add_all (f ∷ fs) w)) (b'{' ∷ members (f ∷ fs)) (length buf)
    trimmed =
        trim-Holds (add_all (f ∷ fs) w) (b'{' ∷ members (f ∷ fs)) (length buf) filled (omega arith)
