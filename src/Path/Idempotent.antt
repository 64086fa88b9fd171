-- ===== src/Path/Idempotent.antt =====
-- A normalized path is normalized again to itself.
use mathlib.Core.List.{reverse-cons}
use stateful_core.Base.{
  ℕ, Text, Bool, true, false, not, List, [], ◌∷◌, ◌++◌, reverse, ◌≡◌, refl, sym, arith, Mem, inl,
  inr, all, filter, ◌==◌, if◌then◌else◌, Mem-filter, ap, ◌∙◌, append_assoc, append-nil,
}
use stateful_core.Path.{
  portable, cons_segment, split_slash, join_slash, is_skipped, is_parent, pop, fold_segments,
  normalized_segments, normalize_relative_path,
}
use stateful_core.Path.Segments.{has_slash, normalized_segments-plain, fold_segments-from}

-- No backslash.
is_portable : Text → Bool
is_portable t = all (λ c. not (c == 0x5c)) t

is_portable-portable : (t : Text) → is_portable (portable t) ≡ true
unfolding is_portable portable
is_portable-portable [] = refl
is_portable-portable (c ∷ t) = let rest = is_portable-portable t in ground arith

portable-is_portable : (t : Text) → is_portable t ≡ true → portable t ≡ t
unfolding is_portable portable
portable-is_portable [] h = refl
portable-is_portable (c ∷ t) h = let rest = portable-is_portable t in ground arith

cons_segment-is_portable :
    (c : ℕ) (ss : List Text) (s : Text)
    → (c == 0x5c) ≡ false
    → ((t : Text) → Mem t ss → is_portable t ≡ true)
    → Mem s (cons_segment c ss)
    → is_portable s ≡ true
unfolding cons_segment is_portable
cons_segment-is_portable c [] s h all_portable (inl e) = rw (e, h) refl
cons_segment-is_portable c [] s h all_portable (inr m) = elim m [ ]
cons_segment-is_portable c (r ∷ ss) s h all_portable (inl e) = rw (e, h) (all_portable r (inl refl))
cons_segment-is_portable c (r ∷ ss) s h all_portable (inr m) = all_portable s (inr m)

split-is_portable :
    (c : ℕ) (b : Bool) (ss : List Text) (s : Text)
    → (c == 0x5c) ≡ false
    → ((t : Text) → Mem t ss → is_portable t ≡ true)
    → Mem s (if b then [] ∷ ss else cons_segment c ss)
    → is_portable s ≡ true
unfolding is_portable
split-is_portable c true ss s h all_portable (inl e) = ap is_portable e
split-is_portable c true ss s h all_portable (inr m) = all_portable s m
split-is_portable c false ss s h all_portable m = cons_segment-is_portable c ss s h all_portable m

split_slash-is_portable :
    (t s : Text) → is_portable t ≡ true → Mem s (split_slash t) → is_portable s ≡ true
unfolding split_slash is_portable
split_slash-is_portable [] s h (inl e) = ap is_portable e
split_slash-is_portable [] s h (inr m) = elim m [ ]
split_slash-is_portable (c ∷ t) s h m =
    split-is_portable c (c == b'/') (split_slash t) s (ground arith)
      (λ u k. split_slash-is_portable t u (ground arith) k) m

-- A segment without a slash is the first segment of what it begins.
split_slash-append :
    (s t : Text) → has_slash s ≡ false → split_slash (s ++ b'/' ∷ t) ≡ s ∷ split_slash t
unfolding split_slash has_slash cons_segment
split_slash-append [] t h = refl
split_slash-append (c ∷ s) t h = let rest = split_slash-append s t in ground arith

split_slash-plain : (s : Text) → has_slash s ≡ false → split_slash s ≡ s ∷ []
unfolding split_slash has_slash cons_segment
split_slash-plain [] h = refl
split_slash-plain (c ∷ s) h = let rest = split_slash-plain s in ground arith

split_slash-join_slash :
    (s : Text) (ss : List Text)
    → ((t : Text) → Mem t (s ∷ ss) → has_slash t ≡ false)
    → split_slash (join_slash (s ∷ ss)) ≡ s ∷ ss
unfolding join_slash
split_slash-join_slash s [] h = split_slash-plain s (h s (inl refl))
split_slash-join_slash s (t ∷ ss) h =
    split_slash-append s (join_slash (t ∷ ss)) (h s (inl refl))
    ∙ ap (λ x. s ∷ x) (split_slash-join_slash t ss (λ u m. h u (inr m)))

append-is_portable :
    (s t : Text) → is_portable s ≡ true → is_portable t ≡ true → is_portable (s ++ t) ≡ true
unfolding is_portable
append-is_portable [] t h k = k
append-is_portable (c ∷ s) t h k = let rest = append-is_portable s t in ground arith

slash_before : (t : Text) → is_portable t ≡ true → is_portable (b'/' ∷ t) ≡ true
unfolding is_portable
slash_before t h = h

join_slash-is_portable :
    (ss : List Text)
    → ((t : Text) → Mem t ss → is_portable t ≡ true)
    → is_portable (join_slash ss) ≡ true
unfolding join_slash
join_slash-is_portable [] h = unfold is_portable in refl
join_slash-is_portable (s ∷ []) h = h s (inl refl)
join_slash-is_portable (s ∷ t ∷ ss) h =
    append-is_portable s (b'/' ∷ join_slash (t ∷ ss)) (h s (inl refl))
      (slash_before (join_slash (t ∷ ss)) (join_slash-is_portable (t ∷ ss) (λ u m. h u (inr m))))

-- What is neither skipped nor a parent step is pushed.
fold_segments-plain :
    (stack ss : List Text)
    → ((t : Text) → Mem t ss → is_parent t ≡ false)
    → fold_segments stack ss ≡ reverse stack ++ ss
unfolding fold_segments
fold_segments-plain stack [] h = sym (append-nil (reverse stack))
fold_segments-plain stack (s ∷ ss) h =
    ap (λ b. fold_segments (if b then pop stack else s ∷ stack) ss) (h s (inl refl))
    ∙ fold_segments-plain (s ∷ stack) ss (λ u m. h u (inr m))
    ∙ ap (λ x. x ++ ss) (reverse-cons s stack)
    ∙ append_assoc (reverse stack) (s ∷ []) ss

filter-all :
    (p : Text → Bool) (ss : List Text) → ((t : Text) → Mem t ss → p t ≡ true) → filter p ss ≡ ss
filter-all p [] h = refl
filter-all p (s ∷ ss) h =
    rw (h s (inl refl)) (ap (λ x. s ∷ x) (filter-all p ss (λ u m. h u (inr m))))

filter-split-join :
    (ss : List Text)
    → ((t : Text)
        → Mem t ss
        → (is_skipped t ≡ false) × (is_parent t ≡ false) × (has_slash t ≡ false))
    → filter (λ t. not (is_skipped t)) (split_slash (join_slash ss)) ≡ ss
filter-split-join [] h = unfold join_slash split_slash is_skipped in refl
filter-split-join (s ∷ ss) h =
    ap (filter (λ t. not (is_skipped t))) (split_slash-join_slash s ss (λ t m. (h t m).2))
    ∙ filter-all (λ t. not (is_skipped t)) (s ∷ ss) (λ t m. ap not (h t m).0)

normalized_segments-is_portable :
    (path s : Text) → Mem s (normalized_segments path) → is_portable s ≡ true
unfolding normalized_segments
normalized_segments-is_portable path s m =
    elim (fold_segments-from [] (filter (λ x. not (is_skipped x)) (split_slash (portable path))) s
      m) [
        | inl absent ↦ elim absent [ ]
        | inr (there, plain) ↦
            let (split, kept) = Mem-filter _ s (split_slash (portable path)) there in
            split_slash-is_portable (portable path) s (is_portable-portable path) split
      ]

-- The segments of a normalized path are read back from it.
normalized_segments-join :
    (path : Text)
    → normalized_segments (join_slash (normalized_segments path)) ≡ normalized_segments path
unfolding normalized_segments fold_segments
normalized_segments-join path =
    let ss = normalized_segments path in
    ap (λ t. fold_segments [] (filter (λ x. not (is_skipped x)) (split_slash t)))
      (portable-is_portable (join_slash ss)
        (join_slash-is_portable ss (normalized_segments-is_portable path)))
    ∙ ap (fold_segments []) (filter-split-join ss (normalized_segments-plain path))
    ∙ fold_segments-plain [] ss (λ t m. (normalized_segments-plain path t m).1)

-- A path that is normalized already is left as it is: normalizing twice is normalizing once.
pub normalize_relative_path-again :
    (path : Text)
    → normalize_relative_path (normalize_relative_path path) ≡ normalize_relative_path path
unfolding normalize_relative_path
normalize_relative_path-again path = ap join_slash (normalized_segments-join path)
