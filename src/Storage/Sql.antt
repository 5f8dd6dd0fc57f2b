-- ===== src/Storage/Sql.antt =====
-- The SELECT statements of server/internal/storage/clickhouse.go as data. ClickHouse itself is not
-- modelled: what its WHERE clause selects is stated as documented, and what it makes of the selected
-- rows is a parameter.
use promptmeter.Prelude.{
  ℕ, ◌≡◌, Bool, true, false, Option, none, some, List, [], ◌∷◌, Str, str_eq, ◌==◌, all,
  if◌then◌else◌,
}
use promptmeter.Domain.Floats.{Float64}
use promptmeter.Domain.Time.{Time}

-- A value of a column, or of a named argument.
pub data Cell : Type 0 where
  text : Str → Cell
  uint : ℕ → Cell
  float : Float64 → Cell
  time : Time → Cell

-- The columns that conditions mention; `feature` is the expression tags['feature'].
pub data Column : Type 0 where
  org_id project_id model provider feature tag_key hour date timestamp : Column

-- One conjunct of a WHERE clause; a text is the name of a placeholder. The bound of a time column is
-- converted to the column's type.
pub data Condition : Type 0 where
  -- column = {name}
  is : Column → Str → Condition
  -- column >= ...{name}...
  since : Column → Str → Condition
  -- column <= ...{name}...
  until : Column → Str → Condition
  -- column < ...{name}...
  before : Column → Str → Condition
  -- column != ''
  present : Column → Condition

abbrev pub Args : Type 0
Args = List (Str × Cell)

-- The clauses besides WHERE are kept as their text.
pub record Query : Type 0 where
  pub select : List Str
  pub table : Str
  pub conditions : List Condition
  pub group_by : List Str
  pub order_by : Str
  pub limit : Option ℕ
  pub args : Args

-- A row of a table.
abbrev pub Fact : Type 0
Fact = Column → Cell

-- The conversion of a bound to the type of a column, toDateTime and toDate, and the order of times.
pub record Times : Type 0 where
  pub convert : Column → Cell → Cell
  pub le : Cell → Cell → Bool
  pub lt : Cell → Cell → Bool

unfoldable pub arg_of : Str → Args → Option Cell
unfolding str_eq
arg_of n [] = none
arg_of n ((m, c) ∷ rest) = let later = arg_of n rest in if str_eq m n then some c else later

unfoldable pub cell_eq : Cell → Cell → Bool
unfolding str_eq
cell_eq (Cell.text a) (Cell.text b) = str_eq a b
cell_eq (Cell.uint a) (Cell.uint b) = a == b
cell_eq _ _ = false

abbrev pub is_text : Cell → Bool
is_text (Cell.text []) = false
is_text _ = true

abbrev pub with_arg : (Cell → Bool) → Option Cell → Bool
with_arg test none = false
with_arg test (some c) = test c

module _ (times : Times) (args : Args) (r : Fact) where
  unfoldable pub holds : Condition → Bool
  unfolding arg_of cell_eq
  holds (Condition.is c n) = with_arg (λ a. cell_eq (r c) a) (arg_of n args)
  holds (Condition.since c n) = with_arg (λ a. times.le (times.convert c a) (r c)) (arg_of n args)
  holds (Condition.until c n) = with_arg (λ a. times.le (r c) (times.convert c a)) (arg_of n args)
  holds (Condition.before c n) = with_arg (λ a. times.lt (r c) (times.convert c a)) (arg_of n args)
  holds (Condition.present c) = is_text (r c)

-- WHERE selects the rows for which every conjunct holds.
unfoldable pub selects : Times → Query → Fact → Bool
unfolding holds
selects times q r = all (λ c. holds times q.args r c) q.conditions

-- The tables by their names.
abbrev pub Database : Type 0
Database = Str → List Fact

unfoldable pub filter {ℓ} : {A : Type ℓ} → (A → Bool) → List A → List A
filter p [] = []
filter p (x ∷ xs) = let rest = filter p xs in if p x then x ∷ rest else rest

-- What a query answers: the rows that it yields, and whether reading them ended in an error.
pub record Rows : Type 0 where
  pub yielded : List (List Cell)
  pub fails : Bool

-- The answer of ClickHouse, `none` if the query fails, depends on the selected rows of its table only.
pub record IsSql (times : Times) (conn : Database → Query → Option Rows) : Type 0 where
  pub answer :
      (d e : Database) (q : Query)
      → filter (λ r. selects times q r) (d q.table) ≡ filter (λ r. selects times q r) (e q.table)
      → conn d q ≡ conn e q
