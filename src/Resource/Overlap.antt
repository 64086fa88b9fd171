-- ===== src/Resource/Overlap.antt =====
-- Laws of `resource_keys_overlap` and `path_contains`.
use stateful_core.Base.{
  ◌≡◌, ◌↔◌, ◌⊎◌, inl, inr, ap, ◌∙◌, refl, arith, Option, none, some, Text, Bool, true, [], ◌∷◌,
  ◌++◌, text_eq, text_eq-eq, text_eq_refl, strip_prefix, ◌||◌,
}
use stateful_core.Coordination.{ResourceKind, ResourceKey, kind_eq}
use stateful_core.Resource.{
  resource_keys_overlap, path_contains, suffix_is_child, starts_with_slash,
}

pub text_eq_comm : (s t : Text) → text_eq s t ≡ text_eq t s
text_eq_comm s t = ground (arith, text_eq-eq s t, text_eq-eq t s, text_eq_refl s, text_eq_refl t)

pub kind_eq_comm : (a b : ResourceKind) → kind_eq a b ≡ kind_eq b a
unfolding kind_eq
kind_eq_comm a b = ground arith

||_comm : (a b : Bool) → (a || b) ≡ (b || a)
||_comm a b = ground arith

-- Whether two resources exclude each other does not depend on their order.
pub resource_keys_overlap_comm :
    (a b : ResourceKey) → resource_keys_overlap a b ≡ resource_keys_overlap b a
unfolding resource_keys_overlap
resource_keys_overlap_comm a b = ground (
  arith,
  text_eq_comm a.workspace_id b.workspace_id,
  text_eq_comm a.resource_id b.resource_id,
  text_eq_comm a.canonical_path b.canonical_path,
  kind_eq_comm a.kind b.kind,
)

pub resource_keys_overlap_refl : (a : ResourceKey) → resource_keys_overlap a a ≡ true
unfolding resource_keys_overlap
resource_keys_overlap_refl a =
    ground (arith, text_eq_refl a.workspace_id, text_eq_refl a.canonical_path)

strip_prefix-append : (d s : Text) → strip_prefix d (d ++ s) ≡ some s
unfolding strip_prefix
strip_prefix-append [] s = refl
strip_prefix-append (c ∷ d) s = ground (arith, strip_prefix-append d s)

strip_prefix-eq-some : (d p s : Text) → strip_prefix d p ≡ some s → p ≡ d ++ s
unfolding strip_prefix
strip_prefix-eq-some [] p s h = ground arith
strip_prefix-eq-some (c ∷ d) [] s h = cc
strip_prefix-eq-some (c ∷ d) (e ∷ p) s h = ground (arith, strip_prefix-eq-some d p s)

slash_suffix :
    (directory path : Text) (o : Option Text)
    → strip_prefix directory path ≡ o
    → suffix_is_child o ≡ true
    → (rest : Text) × (path ≡ directory ++ b'/' ∷ rest)
unfolding suffix_is_child starts_with_slash
slash_suffix directory path none h c = cc
slash_suffix directory path (some []) h c = cc
slash_suffix directory path (some (d ∷ rest)) h c =
    (rest, strip_prefix-eq-some directory path (b'/' ∷ rest) (ground arith))

contains_only :
    (d path : Text)
    → path_contains d path ≡ true
    → (d ≡ []) ⊎ ((rest : Text) × (path ≡ d ++ b'/' ∷ rest))
unfolding path_contains
contains_only [] path h = inl refl
contains_only (c ∷ d) path h = inr (slash_suffix (c ∷ d) path (strip_prefix (c ∷ d) path) refl h)

contains_all :
    (d path : Text)
    → (d ≡ []) ⊎ ((rest : Text) × (path ≡ d ++ b'/' ∷ rest))
    → path_contains d path ≡ true
unfolding path_contains suffix_is_child starts_with_slash
contains_all [] path h = refl
contains_all (c ∷ d) path (inl h) = cc
contains_all (c ∷ d) path (inr (rest, h)) =
    ap (λ p. suffix_is_child (strip_prefix (c ∷ d) p)) h
    ∙ ap suffix_is_child (strip_prefix-append (c ∷ d) (b'/' ∷ rest))

-- A directory contains exactly the paths that continue it after a slash; the workspace's root
-- contains every path. A sibling whose name extends the directory's is not contained.
pub path_contains_iff :
    (directory path : Text)
    → (path_contains directory path ≡ true)
      ↔ ((directory ≡ []) ⊎ ((rest : Text) × (path ≡ directory ++ b'/' ∷ rest)))
path_contains_iff directory path =
    (contains_only directory path, λ h. contains_all directory path h)
