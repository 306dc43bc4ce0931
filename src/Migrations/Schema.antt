-- ===== src/Migrations/Schema.antt =====
-- The part of PostgreSQL's DDL that the migrations use, as it documents it: a table is created once,
-- after the tables that it refers to; an index is created on a column of a table, under a name of its
-- own; a table is dropped with its indexes, and not while another table refers to it.
use platform_engineering_lab.Prelude.{
  ℕ, String, Bool, true, false, ◌&&◌, not, List, [], ◌∷◌, Option, none, some, ◌==◌, any, filter,
  if◌then◌else◌,
}

pub data SqlType : Type 0 where
  uuid timestamp : SqlType
  varchar : (limit : Option ℕ) → SqlType
  numeric : (precision scale : ℕ) → SqlType

pub record Column : Type 0 where
  pub name : String
  pub kind : SqlType
  pub is_key : Bool
  pub not_null : Bool
  pub unique : Bool
  pub default : Option String
  pub check : Option String
  pub references : Option String

pub record Table : Type 0 where
  pub name : String
  pub columns : List Column

-- An index, its table and its column.
pub record Index : Type 0 where
  pub name : String
  pub table : String
  pub column : String

pub data Statement : Type 0 where
  create_table : Table → Statement
  create_index : (index table column : String) → Statement
  drop_table : (table : String) → Statement

pub record Schema : Type 0 where
  pub tables : List Table
  pub indexes : List Index

abbrev pub has_table : String → List Table → Bool
has_table n = any (λ t. t.name == n)

abbrev pub refers_to : String → Column → Bool
refers_to n c = elim c.references [ none ↦ false | some t ↦ t == n ]

-- Another table refers to this one.
abbrev pub is_referenced : String → List Table → Bool
is_referenced n = any (λ t. not (t.name == n) && any (refers_to n) t.columns)

abbrev pub resolves : List Table → Column → Bool
resolves tables c = elim c.references [ none ↦ true | some t ↦ has_table t tables ]

abbrev pub all_resolve : List Table → List Column → Bool
all_resolve tables [] = true
all_resolve tables (c ∷ cs) = resolves tables c && all_resolve tables cs

abbrev pub has_column : String → String → List Table → Bool
has_column n c = any (λ t. (t.name == n) && any (λ k. k.name == c) t.columns)

abbrev pub without : String → List Table → List Table
without n [] = []
without n (t ∷ ts) = let rest = without n ts in if t.name == n then ts else t ∷ rest

-- The schema after a statement, or none where it fails.
unfoldable pub execute : Statement → Schema → Option Schema
execute (create_table t) s =
    if has_table t.name s.tables
    then none
    else if all_resolve (t ∷ s.tables) t.columns
    then some (record s { tables = t ∷ s.tables })
    else none
execute (create_index i n c) s =
    if any (λ x. x.name == i) s.indexes
    then none
    else if has_column n c s.tables
    then some (record s { indexes = record { name = i; table = n; column = c } ∷ s.indexes })
    else none
execute (drop_table n) s =
    if has_table n s.tables
    then if is_referenced n s.tables
      then none
      else some (record {
        tables = without n s.tables;
        indexes = filter (λ x. not (x.table == n)) s.indexes;
      })
    else none

unfoldable pub run : List Statement → Schema → Option Schema
run [] s = some s
run (q ∷ qs) s = elim (execute q s) [ none ↦ none | some s' ↦ run qs s' ]
