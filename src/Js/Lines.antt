-- ===== src/Js/Lines.antt =====
-- Lines and words: split('\n'), trim and split(/\s+/)[0].
use Prim.Native.String.{[], ◌∷◌}
use platform_engineering_lab.Prelude.{
  ℕ, String, Char, code, Bool, ◌&&◌, ◌||◌, List, ◌==◌, eqb, leb, if◌then◌else◌,
}
use platform_engineering_lab.Js.Pattern.{is_space}

abbrev pub before_first : Char → List String → List String
before_first c List.[] = List.◌∷◌ (c ∷ []) List.[]
before_first c (List.◌∷◌ l ls) = List.◌∷◌ (c ∷ l) ls

-- text.split('\n')
unfoldable pub split_lines : String → List String
split_lines [] = List.◌∷◌ [] List.[]
split_lines (c ∷ s) =
    let rest = split_lines s in if eqb (code c) 10 then List.◌∷◌ [] rest else before_first c rest

unfoldable pub trim_start : String → String
trim_start [] = []
trim_start (c ∷ s) = let rest = trim_start s in if is_space (code c) then rest else c ∷ s

unfoldable pub trim_end : String → String
trim_end [] = []
trim_end (c ∷ s) =
    let rest = trim_end s in if is_space (code c) && (rest == "") then [] else c ∷ rest

abbrev pub trim : String → String
trim s = trim_end (trim_start s)

-- line.split(/\s+/)[0], where the line starts with no white space
unfoldable pub first_word : String → String
first_word [] = []
first_word (c ∷ s) = let rest = first_word s in if is_space (code c) then [] else c ∷ rest

-- The class \w
abbrev pub is_word : ℕ → Bool
is_word n =
    (leb b'0' n && leb n b'9')
    || (leb b'A' n && leb n b'Z')
    || (leb b'a' n && leb n b'z')
    || eqb n b'_'

abbrev pub is_digit : ℕ → Bool
is_digit n = leb b'0' n && leb n b'9'
