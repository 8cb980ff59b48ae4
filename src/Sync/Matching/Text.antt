-- ===== src/Sync/Matching/Text.antt =====
-- `normalize_text` and `normalize_ccli`. The character classes and Unicode forms are the platform's.
use Prim.Native.String.{[], ◌∷◌}
use Prim.Native.String
use Prim.Native.Char.{Char}
use worshiptool_churchtools.Prelude.{String, Bool, Option, none, some, List, ◌==◌, if◌then◌else◌}
use worshiptool_churchtools.Sync.Platform.{Platform}

-- A word in front of the words that follow it; an empty one is no word.
abbrev flush : String → List String → List String
flush word words = if word == "" then words else List.◌∷◌ word words

-- The letters before the first separator, and the words after it.
split_from : (Char → Bool) → String → String × List String
split_from keep [] = ([], List.[])
split_from keep (c ∷ s) =
    let (word, words) = split_from keep s in
    if keep c then (c ∷ word, words) else ([], flush word words)

-- `"".join(c if keep(c) else " " for c in value).split()`, for characters whose white space is
-- among those that are not kept.
words : (Char → Bool) → String → List String
unfolding split_from
words keep s = let (word, rest) = split_from keep s in flush word rest

-- `" ".join(words)`
join : List String → String
join List.[] = ""
join (List.◌∷◌ w List.[]) = w
join (List.◌∷◌ w (List.◌∷◌ v ws)) = String.◌++◌ w (String.◌++◌ " " (join (List.◌∷◌ v ws)))

-- `"".join(c for c in value if keep(c))`
only : (Char → Bool) → String → String
only keep [] = []
only keep (c ∷ s) = let rest = only keep s in if keep c then c ∷ rest else rest

module _ (p : Platform) where
  unfoldable pub normalize_text : String → String
  unfolding words join
  normalize_text value = join (words p.is_alnum (p.casefold (p.nfkc value)))

  unfoldable pub normalize_ccli : Option String → String
  unfolding only
  normalize_ccli none = ""
  normalize_ccli (some value) = if value == "" then "" else only p.is_alnum (p.upper (p.nfkc value))
