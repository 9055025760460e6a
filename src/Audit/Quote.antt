-- ===== src/Audit/Quote.antt =====
-- `_quote` of scripts/scenarios/audit-run-causality.py: service names as literals of a query.
use Prim.Native.Char.{Char, code}
use Prim.Native.String.append.{nil as nil_step, cons as cons_step}
use testbed_services.Common.{
  String, str_append, Bool, false, Option, none, some, List, [], ◌∷◌, map, ◌==◌, ◌≡◌, if◌then◌else◌,
}
use testbed_services.Common.Texts.{sorted}

abbrev quote_char : Char
quote_char = "'"

abbrev is_quote : Char → Bool
is_quote c = code c == 39

-- `v.replace("'", "''")`
unfoldable pub doubled : String → String
doubled String.[] = String.[]
doubled (String.◌∷◌ c s) =
    let rest = doubled s in
    if is_quote c then String.◌∷◌ c (String.◌∷◌ c rest) else String.◌∷◌ c rest

unfoldable pub literal : String → String
unfolding doubled
literal v = str_append "'" (str_append (doubled v) "'")

-- `", ".join(texts)`
unfoldable pub joined : List String → String
joined [] = ""
joined (t ∷ []) = t
joined (t ∷ u ∷ texts) = str_append t (str_append ", " (joined (u ∷ texts)))

-- `_quote`
unfoldable pub quote : List String → String
unfolding literal joined sorted
quote values = joined (map literal (sorted values))

-- A literal is read from its opening quote on: a doubled quote is one of the text, a single one ends
-- it. What is read is the text and the rest behind the literal.
abbrev push : Char → Option (String × String) → Option (String × String)
push c none = none
push c (some (v, rest)) = some (String.◌∷◌ c v, rest)

unfoldable mutual
  read_body : String → Option (String × String)
  read_body String.[] = none
  read_body (String.◌∷◌ c s) =
      let closed = read_quote c s in
      let more = push c (read_body s) in if is_quote c then closed else more

  read_quote : Char → String → Option (String × String)
  read_quote c String.[] = some (String.[], String.[])
  read_quote c (String.◌∷◌ d s) =
      let more = push d (read_body s) in
      if is_quote d then more else some (String.[], String.◌∷◌ d s)

unfoldable pub read_opened : String → Option (String × String)
unfolding read_body
read_opened String.[] = none
read_opened (String.◌∷◌ c s) = let more = read_body s in if is_quote c then more else none

-- The rest behind a literal does not begin with a quote.
abbrev Ends : String → Type 0
Ends String.[] = Unit
Ends (String.◌∷◌ c s) = is_quote c ≡ false

-- A text is read as a list of values: literals with a comma and a space between them.
abbrev pub Reads : String → List String → Type 0
Reads text [] = text ≡ ""
Reads text (v ∷ []) = read_opened text ≡ some (v, "")
Reads text (v ∷ w ∷ values) =
    (rest : String) × (read_opened text ≡ some (v, str_append ", " rest)) × Reads rest (w ∷ values)
