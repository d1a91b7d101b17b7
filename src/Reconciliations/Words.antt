-- ===== src/Reconciliations/Words.antt =====
-- Texts as the matching compares them: `contains`, `split_whitespace` and `len` of the standard
-- library, which count bytes of UTF-8.
use Prim.Native.Char.{code}
use Prim.Native.String.{String, ◌++◌, len}
use text.Mathlib.Text.{find?}
use rich_aim_acct_inv.Prelude.{
  ℕ, ◌==◌, ◌≡◌, refl, Bool, ◌&&◌, ◌||◌, leb, if◌then◌else◌, List, [], ◌∷◌,
}
use rich_aim_acct_inv.Ledger.{is_some}

-- `s.contains(t)`
abbrev pub contains_text : String → String → Bool
contains_text s t = is_some (find? s t)

abbrev pub is_empty_text : String → Bool
is_empty_text s = len s == 0

-- Unicode's `White_Space`.
is_whitespace : ℕ → Bool
is_whitespace c =
    (leb 9 c && leb c 13)
    || (c == 32)
    || (c == 0x85)
    || (c == 0xa0)
    || (c == 0x1680)
    || (leb 0x2000 c && leb c 0x200a)
    || (c == 0x2028)
    || (c == 0x2029)
    || (c == 0x202f)
    || (c == 0x205f)
    || (c == 0x3000)

abbrev add_word : String → List String → List String
add_word w ws = if is_empty_text w then ws else w ∷ ws

-- The word that is being read, and the rest of the text.
words_from : String → String → List String
unfolding is_whitespace
words_from w String.[] = add_word w []
words_from w (String.◌∷◌ c s) =
    let next = words_from "" s in
    let more = words_from (w ++ String.◌∷◌ c String.[]) s in
    if is_whitespace (code c) then add_word w next else more

-- `split_whitespace`
unfoldable pub split_whitespace : String → List String
unfolding words_from
split_whitespace s = words_from "" s

words : split_whitespace "  coffee  shop " ≡ "coffee" ∷ "shop" ∷ []
unfolding split_whitespace
words = refl
