-- ===== src/FilePath.antt =====
-- Go's `path/filepath` on Unix, as far as the program calls it: `IsAbs`, `Clean`, `Join`, `Dir`,
-- `Abs`. Paths are compared by their text, links are not followed.
use ovm_next.Base.{
  Text, codes, ◌==◌, split, starts_with_char, if◌then◌else◌, Bool, true, false, ◌||◌, ◌&&◌, List,
  [], ◌∷◌, ◌++◌,
}
use mathlib.Core.List.{reverse}

-- `filepath.IsAbs`
unfoldable pub is_abs : Text → Bool
is_abs p = starts_with_char b'/' p

-- One part of a path in `Clean`; the stack has its top at the head.
resolve : Bool → List Text → Text → List Text
resolve rooted [] part =
    if part == [] || part == codes "."
    then []
    else if part == codes ".." && rooted
    then []
    else part ∷ []
resolve rooted (top ∷ stack) part =
    if part == [] || part == codes "."
    then top ∷ stack
    else if part == codes ".." && (rooted || (if top == codes ".." then false else true))
    then stack
    else part ∷ top ∷ stack

resolve_all : Bool → List Text → List Text → List Text
resolve_all rooted stack [] = reverse stack
resolve_all rooted stack (part ∷ parts) = resolve_all rooted (resolve rooted stack part) parts

-- `strings.Join` with "/".
abbrev slashed : List Text → Text
slashed [] = []
slashed (p ∷ []) = p
slashed (p ∷ q ∷ ps) = p ++ b'/' ∷ slashed (q ∷ ps)

abbrev dot_if_empty : Text → Text
dot_if_empty [] = codes "."
dot_if_empty (c ∷ s) = c ∷ s

-- `filepath.Clean`
unfoldable pub clean : Text → Text
unfolding resolve_all resolve ◌==◌ split is_abs
clean p =
    let (first, others) = split b'/' p in
    let body = slashed (resolve_all (is_abs p) [] (first ∷ others)) in
    if is_abs p then b'/' ∷ body else dot_if_empty body

-- `filepath.Join`: empty elements in front are skipped, then all is cleaned.
unfoldable pub join : List Text → Text
unfolding clean
join [] = []
join ([] ∷ ps) = join ps
join ((c ∷ p) ∷ ps) = clean (slashed ((c ∷ p) ∷ ps))

-- `filepath.Abs` in the working directory `cwd`.
unfoldable pub abs : Text → Text → Text
abs cwd p = if is_abs p then clean p else join (cwd ∷ p ∷ [])

-- All up to the last slash, with it.
up_to_slash : Text → Text
up_to_slash [] = []
up_to_slash (c ∷ s) = elim (up_to_slash s) [
  | [] ↦ if starts_with_char b'/' (c ∷ s) then c ∷ [] else []
  | d ∷ front ↦ c ∷ d ∷ front
]

-- `filepath.Dir`
unfoldable pub dir : Text → Text
unfolding up_to_slash clean
dir p = clean (up_to_slash p)
