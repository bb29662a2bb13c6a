-- ===== src/Socket/Lines.antt =====
-- frontend/seer/src/socket/socket.ts: the lines of a message and the prefix of a type.
use Prim.Native.Char.{Char, code}
use Prim.Native.String.{String}
use text.Mathlib.Text.{◌==◌ as ◌===◌}
use seer.Common.{◌==◌, leb, Bool, ◌&&◌, ◌||◌, List, [], ◌∷◌, map, if◌then◌else◌}

-- What `trim` takes for white space.
abbrev pub is_space : Char → Bool
is_space c =
    (leb 9 (code c) && leb (code c) 13)
    || (code c == 32
        || (code c == 160
            || (code c == 5760
                || ((leb 8192 (code c) && leb (code c) 8202)
                    || (code c == 8232
                        || (code c == 8233
                            || (code c == 8239
                                || (code c == 8287 || (code c == 12288 || code c == 65279)))))))))

unfoldable pub trim_start : String → String
trim_start String.[] = String.[]
trim_start (String.◌∷◌ c s) = let rest = trim_start s in if is_space c then rest else String.◌∷◌ c s

abbrev pub trim_last : Char → String → String
trim_last c String.[] = if is_space c then String.[] else String.◌∷◌ c String.[]
trim_last c (String.◌∷◌ d s) = String.◌∷◌ c (String.◌∷◌ d s)

unfoldable pub trim_end : String → String
trim_end String.[] = String.[]
trim_end (String.◌∷◌ c s) = trim_last c (trim_end s)

-- `split("\n")`: the first part and the others.
unfoldable pub split : String → String × List String
split String.[] = (String.[], [])
split (String.◌∷◌ c s) =
    let (first, others) = split s in
    if code c == 10 then (String.[], first ∷ others) else (String.◌∷◌ c first, others)

-- `filter(Boolean)`
unfoldable pub nonempty : List String → List String
nonempty [] = []
nonempty (s ∷ l) = let rest = nonempty l in if s === "" then rest else s ∷ rest

unfoldable pub lines : String → List String
lines text =
    let (first, others) = split text in
    nonempty (map (λ s. trim_start (trim_end s)) (first ∷ others))

-- `type.split(":")[0]`
unfoldable pub type_prefix : String → String
type_prefix String.[] = String.[]
type_prefix (String.◌∷◌ c s) =
    let rest = type_prefix s in if code c == 58 then String.[] else String.◌∷◌ c rest
