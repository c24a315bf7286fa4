-- ===== src/Prelude/Bytes.antt =====
-- Texts as bytes: Python's `str.encode()` in UTF-8, and `hmac.compare_digest` on texts. A character
-- is a Unicode scalar value, so that encoding does not raise.
use Prim.Native.Nat.{ℕ, ◌+◌, ◌/◌, ◌%◌}
use Prim.Native.Char.{code}
use Prim.Native.String.{String}
use mathlib.Core.Bool.{Bool, true, ◌&&◌}
use mathlib.Core.List.{List, [], ◌∷◌, ◌++◌}
use orxtra.Prelude.Tests.{ltb, ◌==◌, string_eq, if◌then◌else◌}
use orxtra.Prelude.Results.{Result, ok, err, type_error}

-- A byte that continues a character, with six of its bits.
abbrev continuation : ℕ → ℕ
continuation n = 0x80 + n % 0x40

unfoldable pub encode_code : (c : ℕ) → List ℕ
encode_code c =
    if ltb c 0x80
    then c ∷ []
    else if ltb c 0x800
    then (0xC0 + c / 0x40) ∷ continuation c ∷ []
    else if ltb c 0x10000
    then (0xE0 + c / 0x1000) ∷ continuation (c / 0x40) ∷ continuation c ∷ []
    else (0xF0 + c / 0x40000)
      ∷ continuation (c / 0x1000)
      ∷ continuation (c / 0x40)
      ∷ continuation c
      ∷ []

-- s.encode()
unfoldable pub encode : String → List ℕ
unfolding encode_code
encode String.[] = []
encode (String.◌∷◌ c s) = encode_code (code c) ++ encode s

-- s.isascii()
unfoldable pub is_ascii : String → Bool
is_ascii String.[] = true
is_ascii (String.◌∷◌ c s) = ltb (code c) 0x80 && is_ascii s

-- It compares texts of ASCII characters only.
unfoldable pub compare_digest : (a b : String) → Result Bool
unfolding is_ascii
compare_digest a b = if is_ascii a && is_ascii b then ok (a == b) else err type_error
