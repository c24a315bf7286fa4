-- ===== src/Prelude/Texts.antt =====
-- Python's text methods that the program uses, walked character by character.
use Prim.Native.Nat.{ℕ, zero, suc, ◌+◌}
use Prim.Native.Char.{Char, code}
use Prim.Native.String.{String}
use mathlib.Core.Path.{◌≡◌, refl}
use mathlib.Core.Bool.{Bool, true, false, ◌&&◌}
use mathlib.Core.List.{List, [], ◌∷◌}
use mathlib.Core.Option.{Option, none, some}
use native.Mathlib.Omega.{arith}
use Prim.Native.String.{◌++◌ as join}
use text.Mathlib.TextLemmas.{nil-append, cons-append}
use orxtra.Prelude.Tests.{nat_beq, leb, if◌then◌else◌}

-- A part, with one more character before it.
unfoldable pub before : Char → Option (String × String) → Option (String × String)
before c none = none
before c (some (part, rest)) = some (String.◌∷◌ c part, rest)

-- What stands before and behind the first separator.
unfoldable pub cut_at : (sep : ℕ) → String → Option (String × String)
unfolding before
cut_at sep String.[] = none
cut_at sep (String.◌∷◌ c s) =
    let rest = before c (cut_at sep s) in if nat_beq (code c) sep then some (String.[], s) else rest

-- s.split(sep, maxsplit=n)
unfoldable pub split : (sep n : ℕ) → String → List String
unfolding cut_at
split sep zero s = s ∷ []
split sep (suc n) s = elim (cut_at sep s) [
  | none ↦ s ∷ []
  | some (part, rest) ↦ part ∷ split sep n rest
]

-- One more character at the front of the first part.
push : Char → List String → List String
push c [] = String.◌∷◌ c String.[] ∷ []
push c (part ∷ parts) = String.◌∷◌ c part ∷ parts

-- s.split(sep)
unfoldable pub split_all : (sep : ℕ) → String → List String
unfolding push
split_all sep String.[] = String.[] ∷ []
split_all sep (String.◌∷◌ c s) =
    let rest = split_all sep s in if nat_beq (code c) sep then String.[] ∷ rest else push c rest

-- The text holds no such character.
abbrev pub Lacks : (sep : ℕ) → String → Type 0
Lacks sep String.[] = Unit
Lacks sep (String.◌∷◌ c s) = (nat_beq (code c) sep ≡ false) × Lacks sep s

pub cut_at-join :
    (sep : ℕ) (part : String) (c : Char) (rest : String)
    → Lacks sep part
    → code c ≡ sep
    → cut_at sep (join part (join (String.◌∷◌ c String.[]) rest)) ≡ some (part, rest)
unfolding cut_at before
cut_at-join sep String.[] c rest l h = rw (nil-append, cons-append, nil-append) (ground arith)
cut_at-join sep (String.◌∷◌ d part) c rest l h =
    rw (cons-append d part (join (String.◌∷◌ c String.[]) rest))
      (ground (arith, cut_at-join sep part c rest l.1 h))

pub split-cut_at :
    (sep n : ℕ) (s part rest : String)
    → cut_at sep s ≡ some (part, rest)
    → split sep (suc n) s ≡ part ∷ split sep n rest
unfolding split
split-cut_at sep n s part rest h = rw (h, split) refl

-- s.startswith(prefix)
unfoldable pub startswith : (s prefix : String) → Bool
startswith s String.[] = true
startswith String.[] (String.◌∷◌ p prefix) = false
startswith (String.◌∷◌ c s) (String.◌∷◌ p prefix) = nat_beq (code c) (code p) && startswith s prefix

-- The lower case of an ASCII letter. No other character has a lower case that is one of the letters
-- in the texts with which the two functions below compare.
abbrev lower : ℕ → ℕ
lower c = if leb b'A' c && leb c b'Z' then c + 32 else c

-- s.lower().startswith(prefix)
unfoldable pub startswith_lower : (s prefix : String) → Bool
startswith_lower s String.[] = true
startswith_lower String.[] (String.◌∷◌ p prefix) = false
startswith_lower (String.◌∷◌ c s) (String.◌∷◌ p prefix) =
    nat_beq (lower (code c)) (code p) && startswith_lower s prefix

-- s.lower() == t
unfoldable pub equal_lower : (s t : String) → Bool
equal_lower String.[] String.[] = true
equal_lower String.[] (String.◌∷◌ d t) = false
equal_lower (String.◌∷◌ c s) String.[] = false
equal_lower (String.◌∷◌ c s) (String.◌∷◌ d t) = nat_beq (lower (code c)) (code d) && equal_lower s t

-- s[n:]
unfoldable pub drop : ℕ → String → String
drop zero s = s
drop (suc n) String.[] = String.[]
drop (suc n) (String.◌∷◌ c s) = drop n s

pub startswith-join : (prefix s : String) → startswith (join prefix s) prefix ≡ true
unfolding startswith
startswith-join String.[] s = refl
startswith-join (String.◌∷◌ p prefix) s = rw cons-append (ground (arith, startswith-join prefix s))
