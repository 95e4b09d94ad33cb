-- ===== src/Examples/Statements.antt =====
-- The texts of statements, and the lines of a PAD's files, at concrete inputs.
use mendix_for_snowflake.Prelude.{
  ℕ, ◌≡◌, ◌≢◌, refl, true, false, Option, none, some, [], ◌∷◌, ◌++◌, Text, text, ◌==◌, upper,
  to_upper, starts_with, split, split_from, last_of, arith, if◌then◌else◌, join, decimal,
}
use mendix_for_snowflake.PadParser.{is_letter, is_word, is_between}
use mendix_for_snowflake.Sql.{
  is_identifier, is_per_app, escape, secret_head, create_or_replace_secret, drop_schema_cascade,
  alter_compute_pool,
}
use mendix_for_snowflake.Sql.Literals.{ReadsLiterals, more, secret_reads_back, secret_breaks_out}
use mendix_for_snowflake.Sql.Interlock.{IsQualified, IsAppSchema, drop_schema_cascade_guarded}

-- A reader of string literals.
read_literal : Text → Option (Text × Text)
read_literal [] = none
read_literal (c ∷ []) = if c == 39 then some ([], []) else none
read_literal (c ∷ d ∷ cs) = elim (c == 39) [
  | true ↦ elim (d == 39) [ true ↦ more 39 (read_literal cs) | false ↦ some ([], d ∷ cs) ]
  | false ↦ elim (c == 92) [
    | true ↦ more d (read_literal cs)
    | false ↦ more c (read_literal (d ∷ cs))
  ]
]

read_plain :
    (c : ℕ) (cs : Text) → c ≢ 39 → c ≢ 92 → read_literal (c ∷ cs) ≡ more c (read_literal cs)
unfolding read_literal
read_plain c [] p q = let e : (c == 39) ≡ false = ground arith in rw e refl
read_plain c (d ∷ cs) p q =
    let e : (c == 39) ≡ false = ground arith in
    let f : (c == 92) ≡ false = ground arith in rw (e, read_literal) (rw f refl)

read_closed_before : (c : ℕ) (cs : Text) → c ≢ 39 → read_literal (39 ∷ c ∷ cs) ≡ some ([], c ∷ cs)
unfolding read_literal
read_closed_before c cs p = let e : (c == 39) ≡ false = ground arith in rw (e, read_literal) refl

read_doubled : (cs : Text) → read_literal (39 ∷ 39 ∷ cs) ≡ more 39 (read_literal cs)
unfolding read_literal
read_doubled cs = refl

read_escaped : (cs : Text) → read_literal (92 ∷ 39 ∷ cs) ≡ more 39 (read_literal cs)
unfolding read_literal
read_escaped cs = refl

read_closed : read_literal (39 ∷ []) ≡ some ([], [])
unfolding read_literal
read_closed = refl

read_literal-ReadsLiterals : ReadsLiterals read_literal
read_literal-ReadsLiterals = record {
  plain = read_plain;
  doubled = read_doubled;
  escaped = read_escaped;
  closed = read_closed;
  closed_before = read_closed_before;
}

abbrev secret_name : Text
secret_name = text "DB.MXAPP_SHOP.MX_CONST_MAIN_URL"

secret_named : is_identifier secret_name ≡ true
unfolding is_identifier is_letter is_word is_between
secret_named = refl

secret_reads_back_example :
    (literal : Text) × (create_or_replace_secret secret_name (text "it's")
      ≡ some (secret_head secret_name ++ literal))
    × (read_literal literal ≡ some (text "it's", []))
secret_reads_back_example =
    secret_reads_back read_literal read_literal-ReadsLiterals secret_name (text "it's") secret_named
      (omega arith)

secret_breaks_out_example :
    (literal : Text) × (create_or_replace_secret secret_name
        (text "a" ++ 92 ∷ 39 ∷ b';' ∷ text " DROP")
      ≡ some (secret_head secret_name ++ literal))
    × (read_literal literal
        ≡ some (text "a" ++ 39 ∷ [], (b';' ∷ escape (text " DROP")) ++ text "'"))
secret_breaks_out_example =
    secret_breaks_out read_literal read_literal-ReadsLiterals secret_name (text "a") b';'
      (text " DROP") secret_named (omega arith) (omega arith)

abbrev shop_schema : Text
shop_schema = text "DB.MXAPP_SHOP"

shop_dropped :
    drop_schema_cascade shop_schema ≡ some (text "DROP SCHEMA IF EXISTS DB.MXAPP_SHOP CASCADE")
unfolding drop_schema_cascade is_identifier is_letter is_word is_between is_per_app last_of split
    split_from upper to_upper starts_with
shop_dropped = refl

drop_schema_cascade_guarded_example :
    (text "DROP SCHEMA IF EXISTS DB.MXAPP_SHOP CASCADE"
      ≡ text "DROP SCHEMA IF EXISTS " ++ (shop_schema ++ text " CASCADE"))
    × IsQualified shop_schema
    × IsAppSchema shop_schema
drop_schema_cascade_guarded_example = drop_schema_cascade_guarded shop_schema shop_dropped

-- The schema of the installation itself is not dropped.
public_kept : drop_schema_cascade (text "DB.APP_PUBLIC") ≡ none
unfolding drop_schema_cascade is_identifier is_letter is_word is_between is_per_app last_of split
    split_from upper to_upper starts_with
public_kept = refl

pool_altered :
    alter_compute_pool (text "POOL") (some 2) none (some 3600)
    ≡ some (text "ALTER COMPUTE POOL POOL SET MIN_NODES = 2 AUTO_SUSPEND_SECS = 3600")
unfolding alter_compute_pool join decimal
pool_altered = refl
