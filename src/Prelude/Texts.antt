-- ===== src/Prelude/Texts.antt =====
-- A Python `str` as its list of code points. `upper` and `lower` treat the ASCII letters; `strip`
-- knows all of Python's white space.
use Prim.Native.Nat.{ℕ, ◌+◌, ◌-◌}
use Prim.Native.Char.{code}
use Prim.Native.String.{String}
use mathlib.Core.Path.{◌≡◌, refl}
use mathlib.Core.Logic.{◌↔◌, ◌⊎◌}
use mathlib.Core.Bool.{Bool, true, false, ◌&&◌, ◌||◌}
use mathlib.Core.Option.{Option, none, some}
use mathlib.Core.List.{List, [], ◌∷◌, map, reverse}
use native.Mathlib.Omega.{arith}
use mendix_for_snowflake.Prelude.Tests.{leb, ◌==◌, if◌then◌else◌}
use mendix_for_snowflake.Prelude.Lists.{any}

abbrev pub Text : Type 0
Text = List ℕ

-- A literal. `String` has its own `[]` and `∷`.
abbrev pub text : String → Text
text String.[] = []
text (String.◌∷◌ c s) = code c ∷ text s

-- `a == b` on texts
unfoldable pub text_eq : Text → Text → Bool
text_eq [] [] = true
text_eq (x ∷ xs) (y ∷ ys) = x == y && text_eq xs ys
text_eq _ _ = false

pub text_eq→eq : (a b : Text) → text_eq a b ≡ true → a ≡ b
unfolding text_eq
text_eq→eq [] [] h = refl
text_eq→eq [] (y ∷ ys) h = cc
text_eq→eq (x ∷ xs) [] h = cc
text_eq→eq (x ∷ xs) (y ∷ ys) h = ground (arith, text_eq→eq xs ys)

pub text_eq_refl : (a : Text) → text_eq a a ≡ true
unfolding text_eq
text_eq_refl [] = refl
text_eq_refl (x ∷ xs) = ground (arith, text_eq_refl xs)

-- `ground` is given this at each pair of texts that is compared.
pub text_eq_iff : (a b : Text) → (text_eq a b ≡ true) ↔ (a ≡ b)
text_eq_iff a b = (text_eq→eq a b, λ e. rw (← e) (text_eq_refl a))

-- `bool(a)`
abbrev pub truthy : Text → Bool
truthy [] = false
truthy (x ∷ xs) = true

-- `bool(o)` of an optional text
abbrev pub truthy? : Option Text → Bool
truthy? none = false
truthy? (some a) = truthy a

-- `o or d`
abbrev pub or_text : Option Text → Text → Text
or_text none d = d
or_text (some a) d = if truthy a then a else d

-- `o or None`
abbrev pub or_none : Option Text → Option Text
or_none none = none
or_none (some a) = if truthy a then some a else none

-- `o == t`, for an optional text
abbrev pub is_text : Option Text → Text → Bool
is_text none t = false
is_text (some a) t = text_eq a t

-- `None` and texts under `==`
abbrev pub opt_eq : Option Text → Option Text → Bool
opt_eq none none = true
opt_eq (some a) (some b) = text_eq a b
opt_eq _ _ = false

unfoldable pub to_upper : ℕ → ℕ
to_upper c = if leb b'a' c && leb c b'z' then c - 32 else c

to_lower : ℕ → ℕ
to_lower c = if leb b'A' c && leb c b'Z' then c + 32 else c

-- `a.upper()`
unfoldable pub upper : Text → Text
unfolding to_upper
upper a = map to_upper a

-- `a.lower()`
unfoldable pub lower : Text → Text
unfolding to_lower
lower a = map to_lower a

to_upper_idem : (c : ℕ) → to_upper (to_upper c) ≡ to_upper c
unfolding to_upper
to_upper_idem c = ground arith

map-to_upper_idem : (a : Text) → map to_upper (map to_upper a) ≡ map to_upper a
map-to_upper_idem [] = refl
map-to_upper_idem (x ∷ xs) = cc (to_upper_idem x, map-to_upper_idem xs)

pub upper_idem : (a : Text) → upper (upper a) ≡ upper a
unfolding upper
upper_idem a = map-to_upper_idem a

-- `UPPER(a) = UPPER(b)`: the names of apps are compared so.
unfoldable pub same_name : Text → Text → Bool
same_name a b = text_eq (upper a) (upper b)

pub same_name_iff : (a b : Text) → (same_name a b ≡ true) ↔ (upper a ≡ upper b)
unfolding same_name
same_name_iff a b = text_eq_iff (upper a) (upper b)

pub same_name_refl : (a : Text) → same_name a a ≡ true
unfolding same_name
same_name_refl a = text_eq_refl (upper a)

-- `c.isspace()`
unfoldable pub is_space : ℕ → Bool
is_space c =
    (leb 9 c && leb c 13)
    || (leb 28 c && leb c 32)
    || c == 133
    || c == 160
    || c == 5760
    || (leb 8192 c && leb c 8202)
    || c == 8232
    || c == 8233
    || c == 8239
    || c == 8287
    || c == 12288

unfoldable pub strip_left : Text → Text
unfolding is_space
strip_left [] = []
strip_left (x ∷ xs) = let rest = strip_left xs in if is_space x then rest else x ∷ xs

-- `a.strip()`
unfoldable pub strip : Text → Text
unfolding strip_left
strip a = reverse (strip_left (reverse (strip_left a)))

-- `a.split(c)`, for one character: the first piece, and the others.
unfoldable pub split_from : ℕ → Text → Text → List Text
split_from c piece [] = reverse piece ∷ []
split_from c piece (x ∷ xs) = elim (x == c) [
  | true ↦ reverse piece ∷ split_from c [] xs
  | false ↦ split_from c (x ∷ piece) xs
]

unfoldable pub split : ℕ → Text → List Text
unfolding split_from
split c a = split_from c [] a

-- `chr(c) in a`
unfoldable pub has_char : ℕ → Text → Bool
unfolding any
has_char c a = any (λ x. x == c) a

unfoldable pub starts_with : Text → Text → Bool
starts_with [] a = true
starts_with (p ∷ ps) [] = false
starts_with (p ∷ ps) (x ∷ xs) = p == x && starts_with ps xs

unfoldable pub ends_with : Text → Text → Bool
unfolding starts_with
ends_with s a = starts_with (reverse s) (reverse a)

-- `a.replace(c, d)`, for one character
unfoldable pub replace_char : ℕ → ℕ → Text → Text
replace_char c d a = map (λ x. if x == c then d else x) a

-- `a in xs`
unfoldable pub mem : Text → List Text → Bool
mem a [] = false
mem a (x ∷ xs) = text_eq x a || mem a xs

-- `set(xs)`, by the last place of each item
unfoldable pub distinct : List Text → List Text
unfolding mem
distinct [] = []
distinct (x ∷ xs) = let rest = distinct xs in if mem x xs then rest else x ∷ rest

abbrev pub In : Text → List Text → Type 0
In a [] = ⊥
In a (x ∷ xs) = (x ≡ a) ⊎ In a xs

pub mem→In : (a : Text) (xs : List Text) → mem a xs ≡ true → In a xs
unfolding mem
mem→In a [] h = cc
mem→In a (x ∷ xs) h = ground (arith, text_eq_iff x a, mem→In a xs)

pub In→mem : (a : Text) (xs : List Text) → In a xs → mem a xs ≡ true
unfolding mem
In→mem a [] h = absurd h
In→mem a (x ∷ xs) h = ground (arith, text_eq_iff x a, In→mem a xs)

pub mem_iff : (a : Text) (xs : List Text) → (mem a xs ≡ true) ↔ In a xs
mem_iff a xs = (mem→In a xs, In→mem a xs)

-- `a <= b` on texts
unfoldable pub text_le : Text → Text → Bool
text_le [] b = true
text_le (x ∷ xs) [] = false
text_le (x ∷ xs) (y ∷ ys) = if x == y then text_le xs ys else leb x y

unfoldable pub insert_sorted : Text → List Text → List Text
insert_sorted a [] = a ∷ []
insert_sorted a (x ∷ xs) = if text_le a x then a ∷ x ∷ xs else x ∷ insert_sorted a xs

-- `sorted(xs)`
unfoldable pub sorted : List Text → List Text
unfolding text_le insert_sorted
sorted [] = []
sorted (x ∷ xs) = insert_sorted x (sorted xs)
