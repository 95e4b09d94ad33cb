-- ===== src/Compliance/Inventory.antt =====
-- `inventory` of compliance/build_evidence.py, and the rows that `inspect_image` puts up for review.
-- The software list of an image is given parsed, and the matches in a copyright text as they are.
pub mod Unidentified
use mendix_for_snowflake.Prelude.{
  ℕ, Bool, true, false, Option, none, some, List, [], ◌∷◌, ◌++◌, map, Text, text, text_eq, text_le,
  or_text, truthy, join, split, filter, sorted, distinct, if◌then◌else◌,
}

-- An entry of `licenses`
pub record License : Type 0 where
  pub spdx_expression : Option Text
  pub value : Option Text

pub record Artifact : Type 0 where
  pub name : Text
  pub version : Option Text
  pub kind : Option Text
  pub licenses : List License
  pub purl : Option Text
  pub source : Option Text
  pub source_version : Option Text
  pub metadata_type : Option Text

-- An entry of copied-debian-packages.json, with what its copyright text has behind `License:`
pub record Copied : Type 0 where
  pub name : Text
  pub version : Text
  pub source : Text
  pub source_version : Text
  pub licenses : List Text

pub record Row : Type 0 where
  pub name : Text
  pub version : Text
  pub kind : Text
  pub licenses : Text
  pub purl : Text
  pub source_package : Text
  pub source_version : Text
  pub evidence : Text

abbrev pub unknown : Text
unknown = text "UNKNOWN"

unfoldable pub license_name : License → Text
license_name l = or_text l.spdx_expression (or_text l.value unknown)

abbrev joined : List Text → Text → Text
joined names fallback =
    let shown = join (text " | ") (sorted (distinct names)) in
    if truthy shown then shown else fallback

-- `d.get(key, "")`
abbrev or_empty : Option Text → Text
or_empty none = []
or_empty (some a) = a

unfoldable pub row_of : Artifact → Row
unfolding license_name join sorted distinct
row_of a = record {
  name = a.name;
  version = or_empty a.version;
  kind = or_empty a.kind;
  licenses = joined (map license_name a.licenses) unknown;
  purl = or_empty a.purl;
  source_package = or_empty a.source;
  source_version = or_empty a.source_version;
  evidence = or_empty a.metadata_type;
}

-- `name.split(":")[0]`
first_piece : List Text → Text
first_piece [] = []
first_piece (a ∷ pieces) = a

unfoldable pub copied_row : Copied → Row
unfolding first_piece split join sorted distinct
copied_row c =
    let name = first_piece (split b':' c.name) in
    record {
      name = name;
      version = c.version;
      kind = text "deb-copied";
      licenses = joined c.licenses (text "See copyright text");
      purl = [];
      source_package = c.source;
      source_version = c.source_version;
      evidence = text "notices/licenses/copied-debian/" ++ (name ++ text "/copyright");
    }

-- `(r["type"], r["name"], r["version"])`, compared
row_le : Row → Row → Bool
unfolding text_eq text_le
row_le r s =
    if text_eq r.kind s.kind
    then (if text_eq r.name s.name then text_le r.version s.version else text_le r.name s.name)
    else text_le r.kind s.kind

insert_row : Row → List Row → List Row
unfolding row_le
insert_row r [] = r ∷ []
insert_row r (s ∷ rows) = if row_le r s then r ∷ s ∷ rows else s ∷ insert_row r rows

sort_rows : List Row → List Row
unfolding insert_row
sort_rows [] = []
sort_rows (r ∷ rows) = insert_row r (sort_rows rows)

-- `inventory`
unfoldable pub inventory : List Artifact → List Copied → List Row
unfolding sort_rows row_of copied_row
inventory artifacts copied = sort_rows (map row_of artifacts ++ map copied_row copied)

-- `unidentified_licenses`
unfoldable pub unidentified : List Row → List Row
unfolding filter text_eq
unidentified rows = filter (λ r. text_eq r.licenses unknown) rows
