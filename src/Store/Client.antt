-- ===== src/Store/Client.antt =====
-- The DynamoDB client that store_dynamodb.py calls. It is not part of the repository: its calls are
-- the fields of a record, and what the store relies on of their documented behaviour is `ClientLaws`.
use aws_devops_sdet_demo.Prelude.{
  ℤ, ◌+ℤ◌, ltb_ℤ, leb_ℤ, String, ◌≡◌, ◌≢◌, Bool, true, false, not, ◌&&◌, ◌||◌, Option, none, some,
  [], ◌∷◌, Dict, lookup, Exec, ok, raised, is_some,
}

-- An attribute of an item: the three types that the store reads and writes, and any other.
pub data Attribute : Type 0 where
  S : String → Attribute
  N : ℤ → Attribute
  bool_value : Bool → Attribute
  other : Attribute

abbrev pub Row : Type 0
Row = Dict Attribute

-- The condition expressions that the store writes.
pub data Condition : Type 0 where
  always : Condition
  attribute_exists attribute_not_exists : String → Condition
  greater less at_most : String → ℤ → Condition
  both either : Condition → Condition → Condition

pub data ClientError : Type 0 where
  -- botocore's ClientError, with its code and the item of ReturnValuesOnConditionCheckFailure
  client_error : String → Option Row → ClientError
  -- any other exception, by the name of its type
  other_error : String → ClientError

abbrev pub conditional : String
conditional = "ConditionalCheckFailedException"

pub record Client (W : Type 0) : Type 0 where
  -- a consistent read
  pub get_item : String → Exec W ClientError (Option Row)
  -- the item's key and its other attributes
  pub put_item : String → Row → Condition → Exec W ClientError (Unit {0})
  pub delete_item : String → Condition → Exec W ClientError (Unit {0})
  -- `SET a = if_not_exists(a, :start) + :step`, which answers the new value of `a`
  pub update_item : String → String → ℤ → ℤ → Condition → Exec W ClientError ℤ

-- The attribute of a row that may be missing.
abbrev pub attribute : String → Option Row → Option Attribute
attribute a none = none
attribute a (some row) = lookup a row

abbrev pub compares : (ℤ → Bool) → Option Attribute → Bool
compares test (some (N n)) = test n
compares test _ = false

abbrev pub holds : Condition → Option Row → Bool
holds always row = true
holds (attribute_exists a) row = is_some (attribute a row)
holds (attribute_not_exists a) row = not (is_some (attribute a row))
holds (greater a n) row = compares (ltb_ℤ n) (attribute a row)
holds (less a n) row = compares (λ m. ltb_ℤ m n) (attribute a row)
holds (at_most a n) row = compares (λ m. leb_ℤ m n) (attribute a row)
holds (both c d) row = holds c row && holds d row
holds (either c d) row = holds c row || holds d row

-- The value from which an update counts on; none at an attribute of another type.
abbrev pub starting : ℤ → Option Attribute → Option ℤ
starting start none = some start
starting start (some (N n)) = some n
starting start _ = none

-- The names of the attributes of a row are distinct.
abbrev pub IsDistinct : Row → Type 0
IsDistinct [] = Unit
IsDistinct ((a, v) ∷ row) = (lookup a row ≡ none) × IsDistinct row

-- A row under the key `k`: its names are distinct, and it holds its key.
abbrev pub IsRow : String → Row → Type 0
IsRow k row = IsDistinct row × (lookup "pk" row ≡ some (S k))

-- `rows` is the table in a world. A call that succeeds met its condition and did its work; one whose
-- condition failed changed nothing; one that failed otherwise may have changed its own key, and no
-- call changes another key.
pub record ClientLaws {W : Type 0} (client : Client W) (rows : W → String → Option Row)
    : Type 0 where
  pub formed : (w : W) (k : String) (row : Row) → rows w k ≡ some row → IsRow k row
  pub get_reads :
      (k : String) (w : W) (found : Option Row)
      → (client.get_item k w).0 ≡ ok found
      → found ≡ rows w k
  pub get_keeps : (k : String) (w : W) (j : String) → rows (client.get_item k w).1 j ≡ rows w j
  pub put_keeps :
      (k : String) (row : Row) (c : Condition) (w : W) (j : String)
      → k ≢ j
      → rows (client.put_item k row c w).1 j ≡ rows w j
  pub put_done :
      (k : String) (row : Row) (c : Condition) (w : W)
      → (client.put_item k row c w).0 ≡ ok tt
      → (holds c (rows w k) ≡ true)
        × (rows (client.put_item k row c w).1 k ≡ some (("pk", S k) ∷ row))
  pub put_refused :
      (k : String) (row : Row) (c : Condition) (w : W) (old : Option Row)
      → (client.put_item k row c w).0 ≡ raised (client_error conditional old)
      → (holds c (rows w k) ≡ false)
        × (rows (client.put_item k row c w).1 k ≡ rows w k)
        × (old ≡ rows w k)
  pub delete_keeps :
      (k : String) (c : Condition) (w : W) (j : String)
      → k ≢ j
      → rows (client.delete_item k c w).1 j ≡ rows w j
  pub delete_done :
      (k : String) (c : Condition) (w : W)
      → (client.delete_item k c w).0 ≡ ok tt
      → (holds c (rows w k) ≡ true) × (rows (client.delete_item k c w).1 k ≡ none)
  pub delete_refused :
      (k : String) (c : Condition) (w : W) (old : Option Row)
      → (client.delete_item k c w).0 ≡ raised (client_error conditional old)
      → (holds c (rows w k) ≡ false) × (rows (client.delete_item k c w).1 k ≡ rows w k)
  pub update_keeps :
      (k a : String) (start step : ℤ) (c : Condition) (w : W) (j : String)
      → k ≢ j
      → rows (client.update_item k a start step c w).1 j ≡ rows w j
  pub update_done :
      (k a : String) (start step : ℤ) (c : Condition) (w : W) (n : ℤ)
      → (client.update_item k a start step c w).0 ≡ ok n
      → (holds c (rows w k) ≡ true)
        × ((m : ℤ) × (starting start (attribute a (rows w k)) ≡ some m) × (n ≡ m +ℤ step))
        × (attribute a (rows (client.update_item k a start step c w).1 k) ≡ some (N n))
  pub update_refused :
      (k a : String) (start step : ℤ) (c : Condition) (w : W) (old : Option Row)
      → (client.update_item k a start step c w).0 ≡ raised (client_error conditional old)
      → (holds c (rows w k) ≡ false) × (rows (client.update_item k a start step c w).1 k ≡ rows w k)
