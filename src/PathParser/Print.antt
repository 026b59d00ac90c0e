-- ===== src/PathParser/Print.antt =====
-- Printed paths are parsed back, and an empty part ends a path.
use maer_os.Common.{
  ℕ, zero, suc, ◌+◌, ◌≤◌, ◌<◌, ◌≡◌, ◌≢◌, refl, ap, ◌∙◌, some, List, [], ◌∷◌, ◌++◌, length,
  length-append, append_assoc, arith, ◌==◌, ◌||◌, leb, ltb, ==_false, true, false, min, pos, le→ltb,
}
use maer_os.Strings.{isdigit, tonumericdigit}
use maer_os.Strings.Laws.{IsText-append, IsText, c_string, strlen_lem, strnlen_lem}
use maer_os.PathParser.{
  pathparser_path_valid_format, pathparser_get_drive_by_path, in_part, part_loop, skip_slash,
  pathparser_get_path_part, linked, parse_parts, rooted, pathparser_parse,
}

-- The characters of a part: neither a slash nor a terminator.
unfoldable pub IsName : List ℕ → Type 0
IsName [] = Unit
IsName (c ∷ cs) = (c ≢ 0x2f) × (c ≢ 0) × IsName cs

unfoldable pub AreNames : List (List ℕ) → Type 0
AreNames [] = Unit
AreNames (p ∷ ps) = (0 < length p) × IsName p × AreNames ps

-- The parts, each but the last with a slash behind it.
unfoldable pub joined : List (List ℕ) → List ℕ
joined [] = []
joined (p ∷ []) = p
joined (p ∷ q ∷ ps) = p ++ (0x2f ∷ joined (q ∷ ps))

part_loop_lem :
    (p : List ℕ) (c : ℕ) (rest : List ℕ)
    → IsName p
    → ((c == 0x2f) || (c == 0)) ≡ true
    → part_loop (p ++ (c ∷ rest)) ≡ some (p, c ∷ rest)
unfolding part_loop IsName
part_loop_lem [] c rest n e = rw e refl
part_loop_lem (d ∷ p) c rest n e =
    let f : (d == 0x2f) ≡ false = ==_false d 0x2f n.0 in
    let g : (d == 0) ≡ false = ==_false d 0 n.1 in
    rw (f, g) (ap (in_part d) (part_loop_lem p c rest n.2 e))

part_before_slash :
    (p rest : List ℕ) → IsName p → pathparser_get_path_part (p ++ (0x2f ∷ rest)) ≡ some (p, rest)
unfolding pathparser_get_path_part skip_slash
part_before_slash p rest n = rw (part_loop_lem p 0x2f rest n refl, pathparser_get_path_part) refl

part_at_end :
    (p rest : List ℕ) → IsName p → pathparser_get_path_part (p ++ (0 ∷ rest)) ≡ some (p, 0 ∷ rest)
unfolding pathparser_get_path_part skip_slash
part_at_end p rest n = rw (part_loop_lem p 0 rest n refl, pathparser_get_path_part) refl

parse_one :
    (fuel : ℕ) (path p rest : List ℕ)
    → 0 < length p
    → pathparser_get_path_part path ≡ some (p, rest)
    → parse_parts (suc fuel) path ≡ linked p (parse_parts fuel rest)
unfolding parse_parts
parse_one fuel path [] rest h e = absurd (omega arith)
parse_one fuel path (c ∷ p) rest h e = rw (e, parse_parts) refl

parse_end :
    (fuel : ℕ) (path rest : List ℕ)
    → pathparser_get_path_part path ≡ some ([], rest)
    → parse_parts (suc fuel) path ≡ some []
unfolding parse_parts
parse_end fuel path rest e = rw (e, parse_parts) refl

-- What may stand behind the last part: a tail that ends the part and then gives an empty one.
record Ends (tail rest : List ℕ) : Type 0 where
  stops : (p : List ℕ) → IsName p → pathparser_get_path_part (p ++ tail) ≡ some (p, rest)
  empty : (r : List ℕ) × (pathparser_get_path_part rest ≡ some ([], r))

-- The parts of a joined path, with fuel for each and one round for the end.
parse_parts-joined :
    (ps : List (List ℕ)) (fuel : ℕ) (tail rest : List ℕ)
    → Ends tail rest
    → AreNames ps
    → length ps < fuel
    → parse_parts fuel (joined ps ++ tail) ≡ some ps
unfolding joined AreNames IsName
parse_parts-joined ps zero tail rest e n h = absurd (omega arith)
parse_parts-joined [] (suc fuel) tail rest e n h = parse_end fuel tail rest (e.stops [] tt)
parse_parts-joined (p ∷ []) (suc zero) tail rest e n h = absurd (omega arith)
parse_parts-joined (p ∷ []) (suc (suc fuel)) tail rest e n h =
    parse_one (suc fuel) _ p rest n.0 (e.stops p n.1)
    ∙ ap (linked p) (parse_end fuel rest e.empty.0 e.empty.1)
parse_parts-joined (p ∷ q ∷ ps) (suc fuel) tail rest e n h =
    ap (parse_parts (suc fuel)) (append_assoc p (0x2f ∷ joined (q ∷ ps)) tail)
    ∙ parse_one fuel _ p (joined (q ∷ ps) ++ tail) n.0 (part_before_slash p _ n.1)
    ∙ ap (linked p) (parse_parts-joined (q ∷ ps) fuel tail rest e n.2 (omega arith))

terminator-Ends : (rest : List ℕ) → Ends (0 ∷ rest) (0 ∷ rest)
unfolding IsName
terminator-Ends rest = record {
  stops = λ p n. part_at_end p rest n;
  empty = (0 ∷ rest, part_at_end [] rest tt);
}

slashes-Ends : (rest : List ℕ) → Ends (0x2f ∷ 0x2f ∷ rest) (0x2f ∷ rest)
unfolding IsName
slashes-Ends rest = record {
  stops = λ p n. part_before_slash p (0x2f ∷ rest) n;
  empty = (rest, part_before_slash [] rest tt);
}

name-IsText : (p : List ℕ) → IsName p → IsText p
unfolding IsText IsName
name-IsText [] n = tt
name-IsText (c ∷ p) n = (n.1, name-IsText p n.2)

joined-IsText : (ps : List (List ℕ)) → AreNames ps → IsText (joined ps)
unfolding joined AreNames IsText
joined-IsText [] n = tt
joined-IsText (p ∷ []) n = name-IsText p n.1
joined-IsText (p ∷ q ∷ ps) n =
    IsText-append p (0x2f ∷ joined (q ∷ ps)) (name-IsText p n.1)
      ((λ e. omega (arith, e)), joined-IsText (q ∷ ps) n.2)

length-joined : (ps : List (List ℕ)) → AreNames ps → length ps ≤ length (joined ps)
unfolding joined AreNames
length-joined [] n = omega arith
length-joined (p ∷ []) n = omega (arith, n.0)
length-joined (p ∷ q ∷ ps) n =
    omega (arith, length-append p (0x2f ∷ joined (q ∷ ps)), length-joined (q ∷ ps) n.2)

prefix-IsText : (d : ℕ) (path : List ℕ) → IsText path → IsText ((d + 48) ∷ 0x3a ∷ 0x2f ∷ path)
unfolding IsText
prefix-IsText d path t =
    ((λ e. omega (arith, e)), ((λ e. omega (arith, e)), ((λ e. omega (arith, e)), t)))

digit-isdigit : (d : ℕ) → d ≤ 9 → isdigit (d + 48) ≡ true
unfolding isdigit
digit-isdigit d h = ground arith

digit-tonumericdigit : (d : ℕ) → d ≤ 9 → tonumericdigit (d + 48) ≡ pos d
unfolding tonumericdigit
digit-tonumericdigit d h = ground arith

long_enough : (n : ℕ) → leb 3 (min (suc (suc (suc n))) 108) ≡ true
long_enough n = ground arith

-- The drive, and the path behind "0:/".
drive_lem :
    (d : ℕ) (path rest : List ℕ)
    → d ≤ 9
    → IsText path
    → pathparser_get_drive_by_path (c_string ((d + 48) ∷ 0x3a ∷ 0x2f ∷ path) rest)
      ≡ some (some (pos d, c_string path rest))
unfolding pathparser_get_drive_by_path pathparser_path_valid_format
drive_lem d path rest h t =
    let n = strnlen_lem ((d + 48) ∷ 0x3a ∷ 0x2f ∷ path) rest 108 (prefix-IsText d path t) in
    let b = long_enough (length path) in
    rw (n, pathparser_get_drive_by_path, pathparser_path_valid_format)
      (rw (b, digit-isdigit d h)
        (ap (λ z. some (some (z, c_string path rest))) (digit-tonumericdigit d h)))

-- Parsing behind the prefix, for a path that is not too long.
parse_prefixed :
    (d : ℕ) (path rest : List ℕ) (parts : List (List ℕ))
    → d ≤ 9
    → IsText path
    → length path + 3 ≤ 108
    → ((fuel : ℕ) → length path < fuel → parse_parts fuel (c_string path rest) ≡ some parts)
    → pathparser_parse (c_string ((d + 48) ∷ 0x3a ∷ 0x2f ∷ path) rest)
      ≡ some (some (record { drive_no = pos d; parts = parts }))
unfolding pathparser_parse
parse_prefixed d path rest parts h t l e =
    let n = strlen_lem ((d + 48) ∷ 0x3a ∷ 0x2f ∷ path) rest (prefix-IsText d path t) in
    let b : ltb 108 (suc (suc (suc (length path)))) ≡ false = le→ltb _ _ (omega arith) in
    let f = length-append path (0 ∷ rest) in
    rw (n, pathparser_parse)
      (rw (b, drive_lem d path rest h t) (ap (rooted (pos d)) (e _ (omega (arith, f)))))

-- The path that names the parts on a drive.
unfoldable pub printed : ℕ → List (List ℕ) → List ℕ
printed d ps = (d + 48) ∷ 0x3a ∷ 0x2f ∷ joined ps

-- A printed path of at most 108 bytes, of nonempty parts without a slash, is parsed back to its
-- drive and its parts.
pub pathparser_parse-printed :
    (d : ℕ) (ps : List (List ℕ)) (rest : List ℕ)
    → d ≤ 9
    → AreNames ps
    → length (printed d ps) ≤ 108
    → pathparser_parse (c_string (printed d ps) rest)
      ≡ some (some (record { drive_no = pos d; parts = ps }))
unfolding printed
pathparser_parse-printed d ps rest h n l =
    parse_prefixed d (joined ps) rest ps h (joined-IsText ps n) (omega arith) (λ fuel p.
      parse_parts-joined ps fuel (0 ∷ rest) (0 ∷ rest) (terminator-Ends rest) n
        (omega (arith, length-joined ps n)))

-- An empty part ends the path: behind two slashes every part is dropped, and the path is accepted as
-- the parts before them.
pub pathparser_parse_two_slashes :
    (d : ℕ) (ps : List (List ℕ)) (more rest : List ℕ)
    → d ≤ 9
    → AreNames ps
    → IsText more
    → length (printed d ps) + length more + 2 ≤ 108
    → pathparser_parse (c_string (printed d ps ++ (0x2f ∷ 0x2f ∷ more)) rest)
      ≡ some (some (record { drive_no = pos d; parts = ps }))
unfolding printed IsText
pathparser_parse_two_slashes d ps more rest h n m l =
    let tail = 0x2f ∷ 0x2f ∷ more in
    let a = length-append (joined ps) tail in
    let slash : (◌≡◌ {A = ℕ} 0x2f 0) → ⊥ = λ e. omega (arith, e) in
    parse_prefixed d (joined ps ++ tail) rest ps h
      (IsText-append (joined ps) tail (joined-IsText ps n) (slash, (slash, m))) (omega (arith, a))
      (λ fuel p.
        ap (parse_parts fuel) (append_assoc (joined ps) tail (0 ∷ rest))
        ∙ parse_parts-joined ps fuel (0x2f ∷ 0x2f ∷ c_string more rest) (0x2f ∷ c_string more rest)
            (slashes-Ends (c_string more rest)) n (omega (arith, a, length-joined ps n)))
