-- ===== src/Judge/Previews.antt =====
-- internal/application/judge/validate_solutions.go, `truncatePreview`: the bytes of a text that a
-- report keeps.
use Prim.Native.Char.{Char, code}
use text.Mathlib.TextBridge.{to_list}
use training_center_back.Prelude.{
  ℕ, String, ◌+◌, ◌/◌, ◌%◌, List, [], ◌∷◌, ◌++◌, length, take, leb, ltb, if◌then◌else◌,
}

-- The UTF-8 of a character.
unfoldable pub encode : ℕ → List ℕ
encode c =
    if ltb c 128
    then c ∷ []
    else if ltb c 2048
    then (192 + c / 64) ∷ (128 + c % 64) ∷ []
    else if ltb c 65536
    then (224 + c / 4096) ∷ (128 + (c / 64) % 64) ∷ (128 + c % 64) ∷ []
    else (240 + c / 262144) ∷ (128 + (c / 4096) % 64) ∷ (128 + (c / 64) % 64) ∷ (128 + c % 64) ∷ []

unfoldable pub encode_all : List Char → List ℕ
encode_all [] = []
encode_all (c ∷ cs) = encode (code c) ++ encode_all cs

-- `[]byte(text)`.
unfoldable pub bytes : String → List ℕ
bytes s = encode_all (to_list s)

abbrev pub max_failure_preview_bytes : ℕ
max_failure_preview_bytes = 2000

unfoldable pub truncate_preview : List ℕ → List ℕ
truncate_preview text =
    if leb (length text) max_failure_preview_bytes
    then text
    else take max_failure_preview_bytes text ++ bytes "... (truncated)"
