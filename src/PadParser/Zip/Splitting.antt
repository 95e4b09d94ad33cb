-- ===== src/PadParser/Zip/Splitting.antt =====
-- The lines of a file, as `splitlines` finds them again.
use mathlib.Core.List.{reverse-cons, append_assoc, append-nil}
use mendix_for_snowflake.Prelude.{
  any, ◌||◌, Bool, true, ◌≡◌, refl, ◌∙◌, ap, false, List, [], ◌∷◌, ◌++◌, reverse, Text, All,
}
use mendix_for_snowflake.PadParser.Zip.{is_break, splitlines_from, splitlines}

-- A text as one line: none of its characters parts it.
abbrev pub IsLine : Text → Type 0
IsLine a = any is_break a ≡ false

-- The lines as a file, each with its line feed.
unfoldable pub unlines : List Text → Text
unlines [] = []
unlines (a ∷ lines) = a ++ 10 ∷ unlines lines

or_false : (b c : Bool) → (b || c) ≡ false → (b ≡ false) × (c ≡ false)
or_false false false h = (refl, refl)
or_false false true h = cc
or_false true c h = cc

splitlines_from-line :
    (piece a rest : Text)
    → IsLine a
    → splitlines_from false piece (a ++ 10 ∷ rest)
      ≡ (reverse piece ++ a) ∷ splitlines_from false [] rest
unfolding splitlines_from is_break any
splitlines_from-line piece [] rest h = rw (append-nil (reverse piece)) refl
splitlines_from-line piece (x ∷ a) rest h =
    let plain : is_break x ≡ false = (or_false (is_break x) (any is_break a) h).0 in
    rw (plain, splitlines_from)
      (rw
        (
          splitlines_from-line (x ∷ piece) a rest (or_false (is_break x) (any is_break a) h).1,
          reverse-cons x piece,
          append_assoc (reverse piece) (x ∷ []) a,
        )
        refl)

pub splitlines-unlines : (lines : List Text) → All IsLine lines → splitlines (unlines lines) ≡ lines
unfolding splitlines unlines splitlines_from
splitlines-unlines [] h = refl
splitlines-unlines (a ∷ lines) (here, h) =
    splitlines_from-line [] a (unlines lines) here ∙ ap (λ ls. a ∷ ls) (splitlines-unlines lines h)
