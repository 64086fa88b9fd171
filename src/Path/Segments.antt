-- ===== src/Path/Segments.antt =====
-- The segments of a normalized path.
use mathlib.Core.List.{reverse_aux}
use stateful_core.Base.{
  ℕ, Text, Bool, true, false, not, List, [], ◌∷◌, reverse, ◌≡◌, refl, arith, Mem, ◌⊎◌, inl, inr,
  any, filter, ◌==◌, if◌then◌else◌, Mem-filter, ap, ◌∙◌,
}
use stateful_core.Path.{
  portable, cons_segment, split_slash, is_skipped, is_parent, pop, fold_segments,
  normalized_segments,
}

unfoldable pub has_slash : Text → Bool
has_slash s = any (λ c. c == b'/') s

-- No segment of the list has a slash.
NoSlash : List Text → Type 0
NoSlash ss = (s : Text) → Mem s ss → has_slash s ≡ false

cons_segment-NoSlash :
    (c : ℕ) (ss : List Text) → (c == b'/') ≡ false → NoSlash ss → NoSlash (cons_segment c ss)
unfolding NoSlash cons_segment has_slash
cons_segment-NoSlash c [] other h s (inl e) = ap has_slash e ∙ ground arith
cons_segment-NoSlash c [] other h s (inr absent) = elim absent [ ]
cons_segment-NoSlash c (r ∷ ss) other h s (inl e) =
    let below = h r (inl refl) in ap has_slash e ∙ ground arith
cons_segment-NoSlash c (r ∷ ss) other h s (inr m) = h s (inr m)

split-NoSlash :
    (c : ℕ) (b : Bool) (ss : List Text)
    → (c == b'/') ≡ b
    → NoSlash ss
    → NoSlash (if b then [] ∷ ss else cons_segment c ss)
unfolding NoSlash has_slash
split-NoSlash c true ss e h s (inl here) = ap has_slash here
split-NoSlash c true ss e h s (inr m) = h s m
split-NoSlash c false ss e h s m = cons_segment-NoSlash c ss e h s m

split_slash-NoSlash : (t : Text) → NoSlash (split_slash t)
unfolding split_slash NoSlash has_slash
split_slash-NoSlash [] s (inl h) = ap has_slash h
split_slash-NoSlash [] s (inr h) = elim h [ ]
split_slash-NoSlash (c ∷ t) s m =
    split-NoSlash c (c == b'/') (split_slash t) refl (split_slash-NoSlash t) s m

Mem-reverse_aux :
    (s : Text) (xs acc : List Text) → Mem s (reverse_aux xs acc) → Mem s xs ⊎ Mem s acc
Mem-reverse_aux s [] acc m = inr m
Mem-reverse_aux s (x ∷ xs) acc m = elim (Mem-reverse_aux s xs (x ∷ acc) m) [
  | inl later ↦ inl (inr later)
  | inr (inl here) ↦ inl (inl here)
  | inr (inr old) ↦ inr old
]

Mem-reverse : (s : Text) (xs : List Text) → Mem s (reverse xs) → Mem s xs
Mem-reverse s xs m = elim (Mem-reverse_aux s xs [] m) [
  | inl there ↦ there
  | inr absent ↦ elim absent [ ]
]

-- What the stack holds came from it or from a segment that is no parent step.
pushed :
    (b : Bool) (s t : Text) (stack : List Text)
    → is_parent s ≡ b
    → Mem t (if b then pop stack else s ∷ stack)
    → Mem t stack ⊎ (t ≡ s) × (is_parent t ≡ false)
unfolding pop
pushed true s t [] e m = inl m
pushed true s t (x ∷ stack) e m = inl (inr m)
pushed false s t stack e (inl here) = inr (here, ap is_parent here ∙ e)
pushed false s t stack e (inr m) = inl m

pub fold_segments-from :
    (stack ss : List Text) (t : Text)
    → Mem t (fold_segments stack ss)
    → Mem t stack ⊎ Mem t ss × (is_parent t ≡ false)
unfolding fold_segments
fold_segments-from stack [] t m = inl (Mem-reverse t stack m)
fold_segments-from stack (s ∷ ss) t m =
    elim (fold_segments-from (if is_parent s then pop stack else s ∷ stack) ss t m) [
      | inr (later, plain) ↦ inr (inr later, plain)
      | inl now ↦ elim (pushed (is_parent s) s t stack refl now) [
        | inl old ↦ inl old
        | inr (here, plain) ↦ inr (inl here, plain)
      ]
    ]

not-true : (b : Bool) → not b ≡ true → b ≡ false
not-true b h = ground arith

-- A normalized path has no empty segment, no `.`, no `..` and no slash inside a segment, so it
-- never leads out of the workspace.
pub normalized_segments-plain :
    (path s : Text)
    → Mem s (normalized_segments path)
    → (is_skipped s ≡ false) × (is_parent s ≡ false) × (has_slash s ≡ false)
unfolding normalized_segments NoSlash
normalized_segments-plain path s m =
    elim (fold_segments-from [] (filter (λ x. not (is_skipped x)) (split_slash (portable path))) s
      m) [
        | inl absent ↦ elim absent [ ]
        | inr (there, plain) ↦
            let (split, kept) = Mem-filter _ s (split_slash (portable path)) there in
            (not-true (is_skipped s) kept, plain, split_slash-NoSlash (portable path) s split)
      ]
