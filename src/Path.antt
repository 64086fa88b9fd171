-- ===== src/Path.antt =====
-- crates/stateful-core/src/path.rs, and `operation_path` of resource.rs: relative paths.
pub mod Segments
pub mod Idempotent
use stateful_core.Base.{
  ℕ, Text, text, Bool, false, ◌||◌, not, Option, none, some, List, [], ◌∷◌, ◌++◌, map, reverse,
  ◌==◌, if◌then◌else◌, text_eq, trim, is_empty, filter,
}

-- `replace('\\', "/")`.
unfoldable pub portable : Text → Text
portable = map (λ c. if c == 0x5c then b'/' else c)

-- `split('/')`, which always gives a segment: the first one, and the others.
unfoldable pub cons_segment : ℕ → List Text → List Text
cons_segment c [] = (c ∷ []) ∷ []
cons_segment c (s ∷ ss) = (c ∷ s) ∷ ss

unfoldable pub split_slash : Text → List Text
unfolding cons_segment
split_slash [] = [] ∷ []
split_slash (c ∷ t) =
    let rest = split_slash t in if c == b'/' then [] ∷ rest else cons_segment c rest

-- `join("/")`.
unfoldable pub join_slash : List Text → Text
join_slash [] = []
join_slash (s ∷ []) = s
join_slash (s ∷ t ∷ ss) = s ++ b'/' ∷ join_slash (t ∷ ss)

unfoldable pub is_skipped : Text → Bool
is_skipped segment = is_empty segment || text_eq segment (text ".")

unfoldable pub is_parent : Text → Bool
is_parent segment = text_eq segment (text "..")

-- The fold of `normalize_relative_path`. The stack has its top first; `pop` of an empty one does
-- nothing.
unfoldable pub pop : List Text → List Text
pop [] = []
pop (_ ∷ ss) = ss

unfoldable pub fold_segments : List Text → List Text → List Text
unfolding pop
fold_segments stack [] = reverse stack
fold_segments stack (s ∷ ss) = fold_segments (if is_parent s then pop stack else s ∷ stack) ss

unfoldable pub normalized_segments : Text → List Text
unfolding fold_segments
normalized_segments path =
    fold_segments [] (filter (λ s. not (is_skipped s)) (split_slash (portable path)))

unfoldable pub normalize_relative_path : Text → Text
normalize_relative_path path = join_slash (normalized_segments path)

unfoldable pub normalize_directory_path : Text → Text
normalize_directory_path path =
    let normalized = normalize_relative_path path in
    if is_empty normalized then normalized else normalized ++ b'/' ∷ []

unfoldable pub normalized_relative_path_is_empty : Text → Bool
normalized_relative_path_is_empty path = is_empty (normalize_relative_path (trim path))

-- `validated_relative_path` of resource.rs on Unix. `Path::components` drops empty segments and `.`;
-- a leading `/` is the root, and a `..` with nothing to pop fails.
unfoldable pub pop_checked : List Text → Option (List Text)
pop_checked [] = none
pop_checked (_ ∷ ss) = some ss

unfoldable pub push_segment : List Text → Text → Option (List Text)
unfolding pop_checked
push_segment stack s =
    if is_skipped s
    then some stack
    else (if is_parent s then pop_checked stack else some (s ∷ stack))

unfoldable pub components : Option (List Text) → List Text → Option (List Text)
unfolding push_segment
components none ss = none
components (some stack) [] = some (reverse stack)
components (some stack) (s ∷ ss) = components (push_segment stack s) ss

unfoldable pub is_absolute : Text → Bool
is_absolute [] = false
is_absolute (c ∷ _) = c == b'/'

unfoldable pub joined : Option (List Text) → Option Text
joined none = none
joined (some []) = none
joined (some (s ∷ ss)) = some (join_slash (s ∷ ss))

-- `none` is `InvalidRelativePath`.
unfoldable pub operation_path : Text → Option Text
unfolding components joined is_absolute
operation_path path =
    let path' = portable path in
    if is_absolute path' then none else joined (components (some []) (split_slash path'))
