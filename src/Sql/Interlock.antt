-- ===== src/Sql/Interlock.antt =====
-- Which schemas `drop_schema_cascade` drops.
use mathlib.Core.List.{append_assoc}
use mendix_for_snowflake.Prelude.{
  leb, ◌||◌, ◌&&◌, ℕ, ◌≡◌, ◌≢◌, refl, ◌∙◌, ap, Bool, true, false, some, [], ◌∷◌, ◌++◌, Text, All,
  text, upper, to_upper, starts_with, Bool-cases, inl, inr, arith, Lacks, EndsWith, ◌⊎◌,
  newline_last, last_of, last_piece, split-append, split-Lacks, ◌==◌,
}
use mendix_for_snowflake.PadParser.{is_letter, is_word, is_between}
use mendix_for_snowflake.Names
use mendix_for_snowflake.Names.{Settings}
use mendix_for_snowflake.Sql.{
  is_identifier, matches_parts, is_part_start, is_part_char, is_per_app, drop_schema_cascade,
}

start_is_part : (c : ℕ) → is_part_start c ≡ true → is_part_char c ≡ true
unfolding is_part_start is_part_char is_word is_letter is_between
start_is_part c h = ground (arith, h)

-- A letter, a digit, an underscore or a dollar sign
abbrev pub is_name_char : ℕ → Bool
is_name_char c =
    (leb b'A' c && leb c b'Z')
    || (leb b'a' c && leb c b'z')
    || (leb b'0' c && leb c b'9')
    || c == b'_'
    || c == b'$'

part_is_name : (c : ℕ) → is_part_char c ≡ true → is_name_char c ≡ true
unfolding is_part_char is_word is_letter is_between
part_is_name c h = ground (arith, h)

-- A text of such characters and dots, and then nothing or a newline, which `$` lets end it.
abbrev pub IsQualified : Text → Type 0
IsQualified fqn =
    (body end : Text) × (fqn ≡ body ++ end)
    × All (λ c. (is_name_char c ≡ true) ⊎ (c ≡ b'.')) body
    × ((end ≡ []) ⊎ (end ≡ 10 ∷ []))

IsQualified-more :
    (c : ℕ) (cs : Text)
    → (is_name_char c ≡ true) ⊎ (c ≡ b'.')
    → IsQualified cs
    → IsQualified (c ∷ cs)
IsQualified-more c cs h (body, end, e, chars, newline) =
    (c ∷ body, end, ap (λ l. c ∷ l) e, (h, chars), newline)

matches_chars : (b : Bool) (cs : Text) → matches_parts b cs ≡ true → IsQualified cs
unfolding matches_parts is_part_start is_part_char is_word is_letter is_between
matches_chars false [] h = cc h
matches_chars true [] h = ([], [], refl, tt, inl refl)
matches_chars false (c ∷ cs) h = elim (Bool-cases (is_part_start c)) [
  | inl p ↦
      IsQualified-more c cs (inl (part_is_name c (start_is_part c p)))
        (matches_chars true cs (rw p at h))
  | inr p ↦ cc (rw p at h)
]
matches_chars true (c ∷ cs) h = elim (Bool-cases (is_part_char c)) [
  | inl p ↦ IsQualified-more c cs (inl (part_is_name c p)) (matches_chars true cs (rw p at h))
  | inr p ↦ elim (Bool-cases (c == b'.')) [
    | inl d ↦
        IsQualified-more c cs (inr (ground (arith, d))) (matches_chars false cs (rw (p, d) at h))
    | inr d ↦ ([], c ∷ cs, refl, tt, inr (newline_last c cs (rw (p, d) at h)))
  ]
]

-- The last part of the name, which stands behind a dot or at its start, begins as the schema of an app
-- does.
abbrev pub IsAppSchema : Text → Type 0
IsAppSchema fqn =
    (pre last : Text) × (fqn ≡ pre ++ last)
    × EndsWith b'.' pre
    × Lacks b'.' last
    × (starts_with (text "MXAPP_") (upper last) ≡ true)

app_schema : (fqn : Text) → is_per_app fqn ≡ true → IsAppSchema fqn
unfolding is_per_app
app_schema fqn h =
    let (pre, last, parts, ending, at_end, lacks) = last_piece b'.' [] fqn in
    (pre, last, parts, ending, lacks, rw at_end at h)

drop_statement : Text → Text
drop_statement fqn = text "DROP SCHEMA IF EXISTS " ++ (fqn ++ text " CASCADE")

-- A schema that is dropped is one of an app: the last part of its name, behind its last dot if it has
-- one, begins with MXAPP_, in any case. The statement names it by letters, digits, underscores, dollar
-- signs and dots only, but for one newline that may end it.
pub drop_schema_cascade_guarded :
    (fqn : Text) {sql : Text}
    → drop_schema_cascade fqn ≡ some sql
    → (sql ≡ text "DROP SCHEMA IF EXISTS " ++ (fqn ++ text " CASCADE"))
      × IsQualified fqn
      × IsAppSchema fqn
unfolding drop_schema_cascade is_identifier
drop_schema_cascade_guarded fqn h = elim (Bool-cases (matches_parts false fqn)) [
  | inr f ↦ cc (rw f at h)
  | inl t ↦ elim (Bool-cases (is_per_app fqn)) [
    | inr f ↦ cc (rw (t, f) at h)
    | inl p ↦ (cc (rw (t, p) at h), matches_chars false fqn t, app_schema fqn p)
  ]
]

-- A name of an app that its registration accepts.
abbrev pub IsAppName : Text → Type 0
IsAppName [] = ⊥
IsAppName (c ∷ cs) = (is_letter c ≡ true) × All (λ x. is_word x ≡ true) cs

-- An identifier of one part.
abbrev pub IsPlain : Text → Type 0
IsPlain [] = ⊥
IsPlain (c ∷ cs) = (is_part_start c ≡ true) × All (λ x. is_part_char x ≡ true) cs

part_matches : (cs : Text) → All (λ x. is_part_char x ≡ true) cs → matches_parts true cs ≡ true
unfolding matches_parts
part_matches [] h = refl
part_matches (c ∷ cs) (p, h) = rw p (part_matches cs h)

dot_ends_part : is_part_char b'.' ≡ false
unfolding is_part_char is_word is_letter is_between
dot_ends_part = refl

prefix_matches :
    (cs rest : Text)
    → All (λ x. is_part_char x ≡ true) cs
    → matches_parts true (cs ++ b'.' ∷ rest) ≡ matches_parts false rest
unfolding matches_parts
prefix_matches [] rest h = rw dot_ends_part refl
prefix_matches (c ∷ cs) rest (p, h) = rw p (prefix_matches cs rest h)

upper_word : (c : ℕ) → is_word c ≡ true → (is_part_char (to_upper c) ≡ true) × (to_upper c ≢ b'.')
unfolding is_part_char is_word is_letter is_between to_upper
upper_word c h = ground (arith, h)

upper_words :
    (cs : Text)
    → All (λ x. is_word x ≡ true) cs
    → All (λ x. is_part_char x ≡ true) (upper cs) × Lacks b'.' (upper cs)
unfolding upper
upper_words [] h = (tt, tt)
upper_words (c ∷ cs) (p, h) =
    let (q, d) = upper_word c p in let (qs, ds) = upper_words cs h in ((q, qs), (d, ds))

plain_lacks : (c : ℕ) → is_part_char c ≡ true → c ≢ b'.'
plain_lacks c h e = cc (dot_ends_part, ap is_part_char e)

plain_parts : (cs : Text) → All (λ x. is_part_char x ≡ true) cs → Lacks b'.' cs
plain_parts [] h = tt
plain_parts (c ∷ cs) (p, h) = (plain_lacks c p, plain_parts cs h)

letter_is_word : (c : ℕ) → is_letter c ≡ true → is_word c ≡ true
unfolding is_word
letter_is_word c h = rw h refl

app_name_words : (app : Text) → IsAppName app → All (λ x. is_word x ≡ true) app
app_name_words [] h = absurd h
app_name_words (c ∷ cs) (p, h) = (letter_is_word c p, h)

plain_chars : (db : Text) → IsPlain db → All (λ x. is_part_char x ≡ true) db
plain_chars [] h = absurd h
plain_chars (c ∷ cs) (p, h) = (start_is_part c p, h)

schema_parts :
    (app : Text) → IsAppName app → All (λ x. is_part_char x ≡ true) (Names.app_schema_name app)
unfolding Names.app_schema_name is_part_char is_word is_letter is_between
schema_parts app h =
    (refl, (refl, (refl, (refl, (refl, (refl, (upper_words app (app_name_words app h)).0))))))

schema_matches :
    (db : Text) (schema : Text)
    → IsPlain db
    → matches_parts false schema ≡ true
    → matches_parts false (db ++ b'.' ∷ schema) ≡ true
unfolding matches_parts
schema_matches [] schema h m = absurd h
schema_matches (c ∷ cs) schema (p, h) m = rw p (prefix_matches cs schema h ∙ m)

schema_name_matches :
    (app : Text) → IsAppName app → matches_parts false (Names.app_schema_name app) ≡ true
unfolding matches_parts Names.app_schema_name is_part_start is_part_char is_word is_letter
    is_between
schema_name_matches app h = part_matches (upper app) (upper_words app (app_name_words app h)).0

schema_prefix :
    (db app : Text)
    → starts_with (text "MXAPP_") (upper (last_of [] (db ∷ Names.app_schema_name app ∷ []))) ≡ true
unfolding last_of Names.app_schema_name upper to_upper starts_with
schema_prefix db app = refl

per_app_schema :
    (db app : Text)
    → IsPlain db
    → IsAppName app
    → is_per_app (db ++ b'.' ∷ Names.app_schema_name app) ≡ true
unfolding is_per_app
per_app_schema db app d a =
    rw
      (
        split-append b'.' db (Names.app_schema_name app) (plain_parts db (plain_chars db d)),
        split-Lacks b'.' (Names.app_schema_name app)
            (plain_parts (Names.app_schema_name app) (schema_parts app a)),
      )
      (schema_prefix db app)

-- The interlock lets the deletion of every app through: its schema, in a database that is named by
-- one plain identifier, is dropped.
pub drop_schema_of_app :
    (s : Settings) (db app : Text)
    → s.db_prefix ≡ db ++ text "."
    → IsPlain db
    → IsAppName app
    → drop_schema_cascade (Names.schema_fqn s (Names.app_schema_name app))
      ≡ some (
          text "DROP SCHEMA IF EXISTS "
          ++ (Names.schema_fqn s (Names.app_schema_name app) ++ text " CASCADE"))
unfolding drop_schema_cascade is_identifier Names.schema_fqn
drop_schema_of_app s db app e d a =
    rw
      (
        e,
        append_assoc db (text ".") (Names.app_schema_name app),
        schema_matches db (Names.app_schema_name app) d (schema_name_matches app a),
        per_app_schema db app d a,
      )
      refl
