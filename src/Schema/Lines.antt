-- ===== src/Schema/Lines.antt =====
-- What the scanners of schema-graph.tsx, create-tuple-dialog.tsx and schema-evaluator.tsx read of
-- one line, and the helpers `stripQuotes` and `parseInlineList` that two of them declare alike.
use zanguard.Prelude.{
  ℕ, ◌-◌, Bool, not, ◌&&◌, ◌||◌, List, [], ◌∷◌, map, length, select, drop, if◌then◌else◌, ◌==◌,
}
use zanguard.Js.Text.{
  Text, text, is_empty, trim, trim_start, starts_with, ends_with, drop_last, split,
}

abbrev pub colon : ℕ
colon = b':'

-- `!rawLine.trim() || rawLine.trimStart().startsWith("#")`
unfoldable pub is_skipped : Text → Bool
is_skipped raw_line = is_empty (trim raw_line) || starts_with (text "#") (trim_start raw_line)

-- `rawLine.length - rawLine.trimStart().length`
unfoldable pub indent_of : Text → ℕ
indent_of raw_line = length raw_line - length (trim_start raw_line)

-- `line.slice(0, -1).trim()`, where the line ends with a colon.
unfoldable pub key_of : Text → Text
key_of line = trim (drop_last line)

abbrev pub is_quote : ℕ → Bool
is_quote u = u == b'"' || u == 39

unfoldable pub strip_last_quote : Text → Text
strip_last_quote [] = []
strip_last_quote (x ∷ []) = if is_quote x then [] else x ∷ []
strip_last_quote (x ∷ y ∷ s) = x ∷ strip_last_quote (y ∷ s)

-- The replacement of `/^['"]|['"]$/g` by "": a quote at the left end, and one at the right end of
-- what is left.
unfoldable pub strip_quotes : Text → Text
strip_quotes [] = []
strip_quotes (x ∷ s) = if is_quote x then strip_last_quote s else strip_last_quote (x ∷ s)

unfoldable pub parse_inline_list : Text → List Text
parse_inline_list value =
    let normalized = trim value in
    if is_empty normalized
    then []
    else if starts_with (text "[") normalized && ends_with b']' normalized
    then select (λ item. not (is_empty item))
        (map (λ item. strip_quotes (trim item)) (split b',' (drop_last (drop 1 normalized))))
    else strip_quotes normalized ∷ []
