-- ===== src/Prelude/Texts.antt =====
-- Python's `str` as the native text: the pieces of an f-string joined, the test `a in b`,
-- `partition`, `join` and the sorting of texts.
use Prim.Native.Nat.{ℕ, zero, suc, ◌+◌}
use Prim.Native.String.{String, ◌++◌, compare, slice, len}
use mathlib.Core.Bool.{Bool, true, false}
use mathlib.Core.Option.{none, some}
use mathlib.Core.List.{List, [], ◌∷◌}
use text.Mathlib.Text.{find?, is_lt, ◌==◌}
use kerislab.Prelude.Tests.{if◌then◌else◌}

-- `needle in haystack`
unfoldable pub occurs_in : String → String → Bool
occurs_in needle haystack = elim (find? haystack needle) [ none ↦ false | some _ ↦ true ]

-- An f-string, as the list of its pieces.
unfoldable pub concat : List String → String
concat [] = ""
concat (piece ∷ pieces) = piece ++ concat pieces

-- `", ".join(pieces)`
unfoldable pub join : String → List String → String
join separator [] = ""
join separator (piece ∷ []) = piece
join separator (piece ∷ pieces) = piece ++ separator ++ join separator pieces

-- `text.partition(separator)[2]`
unfoldable pub partition_tail : String → String → String
partition_tail separator text = elim (find? text separator) [
  | none ↦ ""
  | some i ↦ slice text (i + len separator) (len text)
]

-- `text.partition(separator)[0]`
unfoldable pub partition_head : String → String → String
partition_head separator text = elim (find? text separator) [
  | none ↦ text
  | some i ↦ slice text 0 i
]

-- A character put in front of the first of some pieces.
on_first : String → List String → List String
on_first head [] = head ∷ []
on_first head (piece ∷ pieces) = (head ++ piece) ∷ pieces

-- `text.split(separator)`, for a separator of one character
unfoldable pub split : String → String → List String
unfolding on_first
split separator String.[] = "" ∷ []
split separator (String.◌∷◌ c text) =
    let head : String = String.◌∷◌ c String.[] in
    let pieces = split separator text in
    if head == separator then "" ∷ pieces else on_first head pieces

-- `text * n`
unfoldable pub repeat : String → ℕ → String
repeat text zero = ""
repeat text (suc n) = text ++ repeat text n

-- One text put into a sorted list without repetition.
insert_sorted : String → List String → List String
insert_sorted text [] = text ∷ []
insert_sorted text (other ∷ texts) =
    if is_lt (compare text other)
    then text ∷ other ∷ texts
    else if text == other
    then other ∷ texts
    else other ∷ insert_sorted text texts

-- `sorted(set(texts))`
unfoldable pub sorted_set : List String → List String
unfolding insert_sorted
sorted_set [] = []
sorted_set (text ∷ texts) = insert_sorted text (sorted_set texts)
