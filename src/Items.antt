-- ===== src/Items.antt =====
-- app/src/main.py: the endpoints of the items, over the rows of app/src/models.py, with the bounds
-- and the patch of app/src/schemas.py. SQLAlchemy's session is the fields of `Db`; the trimming and
-- the lengths of texts are pydantic's.
pub mod Atomic
pub mod Pages
use aws_devops_sdet_demo.Prelude.{
  ℕ, suc, String, Bool, true, false, ◌&&◌, Option, none, some, List, [], ◌∷◌, Value, Exec, Outcome,
  ok, raised, pure, raise, attempt, reraise, ◌>>=◌, ◌>>◌, leb, if◌then◌else◌, ◌+++◌, decimal,
}
use aws_devops_sdet_demo.Messages.{item_created_event}

-- A row of `demo_items`; times are their `isoformat`.
pub record DemoItem : Type 0 where
  pub id : ℕ
  pub name : String
  pub description : Option String
  pub created_at : String

-- What a call of the session raises.
pub data DbError : Type 0 where
  integrity_error : DbError
  -- any other exception, by the name of its type
  exception : String → DbError

-- What an endpoint raises: an HTTPException, with its status and detail, or what a call raised.
pub data Error : Type 0 where
  http : ℕ → String → Error
  failed : DbError → Error

pub record Db (W : Type 0) : Type 0 where
  -- `add` and `flush` of an item, which gets its id and its times
  pub insert_item : String → Option String → Exec W DbError DemoItem
  -- `add` of an outbox row
  pub insert_event : String → Value → Exec W DbError (Unit {0})
  pub get : ℕ → Exec W DbError (Option DemoItem)
  -- the item's fields as they now stand
  pub write : DemoItem → Exec W DbError (Unit {0})
  pub delete : ℕ → Exec W DbError (Unit {0})
  pub commit : Exec W DbError (Unit {0})
  pub rollback : Exec W DbError (Unit {0})
  pub refresh : ℕ → Exec W DbError DemoItem
  -- the number of the items; none where the query has no value
  pub count : Exec W DbError (Option ℕ)
  -- ordered by id: the limit and the offset
  pub page : ℕ → ℕ → Exec W DbError (List DemoItem)

pub record ItemCreate : Type 0 where
  pub name : String
  pub description : Option String

-- A field is none where it was not sent, and some of None where it was sent as null.
pub record ItemUpdate : Type 0 where
  pub name : Option (Option String)
  pub description : Option (Option String)

pub record ItemList : Type 0 where
  pub items : List DemoItem
  pub count : ℕ
  pub total : ℕ
  pub limit : ℕ
  pub offset : ℕ

abbrev pub default_limit : ℕ
default_limit = 20

abbrev pub max_limit : ℕ
max_limit = 100

-- `at_least_one_field_and_name_not_null`
abbrev pub is_patch : Option (Option String) → Option (Option String) → Bool
is_patch none none = false
is_patch (some none) description = false
is_patch none (some description) = true
is_patch (some (some name)) description = true

-- `setattr` of the fields that were sent
abbrev pub set_name : Option (Option String) → DemoItem → DemoItem
set_name (some (some name)) item = record item { name = name }
set_name _ item = item

abbrev pub set_description : Option (Option String) → DemoItem → DemoItem
set_description none item = item
set_description (some description) item = record item { description = description }

abbrev pub number_of_items : List DemoItem → ℕ
number_of_items [] = 0
number_of_items (item ∷ items) = suc (number_of_items items)

-- `or 0`
abbrev pub or_zero : Option ℕ → ℕ
or_zero none = 0
or_zero (some n) = n

module _ {W : Type 0} (db : Db W) where
  abbrev Call : Type 0 → Type 0
  Call A = Exec W Error A

  abbrev not_found : ℕ → Error
  not_found item_id = http 404 ("item " +++ (decimal item_id +++ " not found"))

  abbrev duplicate : String → Error
  duplicate name = http 409 ("item with name '" +++ (name +++ "' already exists"))

  -- after the transaction: what is to be read anew, or why it ended
  unfoldable pub settled : String → Outcome DbError ℕ → Call DemoItem
  settled name (ok item_id) = reraise failed (db.refresh item_id)
  settled name (raised integrity_error) = do reraise failed db.rollback; raise (duplicate name)
  settled name (raised e) = raise (failed e)

  abbrev pub transaction : ItemCreate → Option String → Exec W DbError ℕ
  transaction payload request_id = do
    item ← db.insert_item payload.name payload.description
    db.insert_event "item.created" (item_created_event item.id item.name item.created_at request_id)
    db.commit
    pure item.id

  unfoldable pub create_item : ItemCreate → Option String → Call DemoItem
  unfolding settled item_created_event
  create_item payload request_id = do
    result ← attempt (transaction payload request_id)
    settled payload.name result

  abbrev listed : ℕ → ℕ → Call ItemList
  listed limit offset = do
    total ← reraise failed db.count
    rows ← reraise failed (db.page limit offset)
    pure (record {
      items = rows;
      count = number_of_items rows;
      total = or_zero total;
      limit = limit;
      offset = offset;
    })

  -- a page outside the bounds is rejected by validation
  unfoldable pub list_items : ℕ → ℕ → Call ItemList
  list_items limit offset =
      if leb 1 limit && leb limit max_limit then listed limit offset else raise (http 422 "limit")

  found : ℕ → Option DemoItem → Call DemoItem
  found item_id none = raise (not_found item_id)
  found item_id (some item) = pure item

  unfoldable pub get_item : ℕ → Call DemoItem
  unfolding found
  get_item item_id = do item ← reraise failed (db.get item_id); found item_id item

  -- the name that a conflict shows: "None" where none was sent
  abbrev shown_name : Option (Option String) → String
  shown_name (some (some name)) = name
  shown_name _ = "None"

  abbrev pub edit : ItemUpdate → DemoItem → Exec W DbError ℕ
  edit payload item = do
    db.write (set_description payload.description (set_name payload.name item))
    db.commit
    pure item.id

  unfoldable pub patched : ItemUpdate → ℕ → Option DemoItem → Call DemoItem
  unfolding settled
  patched payload item_id none = raise (not_found item_id)
  patched payload item_id (some item) = do
    result ← attempt (edit payload item)
    settled (shown_name payload.name) result

  unfoldable pub update_item : ℕ → ItemUpdate → Call DemoItem
  unfolding patched
  update_item item_id payload =
      if is_patch payload.name payload.description
      then (do item ← reraise failed (db.get item_id); patched payload item_id item)
      else raise (http 422 "patch")

  unfoldable pub removed : ℕ → Option DemoItem → Call (Unit {0})
  removed item_id none = raise (not_found item_id)
  removed item_id (some item) = do reraise failed (db.delete item.id); reraise failed db.commit

  unfoldable pub delete_item : ℕ → Call (Unit {0})
  unfolding removed
  delete_item item_id = do item ← reraise failed (db.get item_id); removed item_id item
