-- ===== src/Tests/Items.antt =====
-- The items in memory: what is saved, and what is pending. The name "lamp" is taken.
use aws_devops_sdet_demo.Prelude.{
  ℕ, String, ◌≡◌, refl, sym, ap, Bool, true, false, Option, none, some, List, [], ◌∷◌, Outcome, ok,
  raised, ◌==◌, ok-injective,
}
use aws_devops_sdet_demo.Items.Pages.{take, drop}
use aws_devops_sdet_demo.Items.{
  DemoItem, DbError, integrity_error, http, Db, ItemCreate, ItemList, create_item, number_of_items,
}
use aws_devops_sdet_demo.Items.Atomic.{
  Tables, add_item, add_event, DbLaws, Created, create_item_atomic, create_item_refused,
}

abbrev World : Type 0
World = Tables × Tables

abbrev saved : World → Tables
saved w = w.0

abbrev pending : World → Tables
pending w = w.1

abbrev new_item : String → Option String → DemoItem
new_item name description = record {
  id = 1;
  name = name;
  description = description;
  created_at = "2026-11-25";
}

abbrev insert : Bool → DemoItem → World → Outcome DbError DemoItem × World
insert true item w = (raised integrity_error, w)
insert false item w = (ok item, (w.0, add_item item w.1))

abbrev db : Db World
db = record {
  insert_item = λ name description w. insert (name == "lamp") (new_item name description) w;
  insert_event = λ event_type payload w. (ok tt, (w.0, add_event event_type payload w.1));
  get = λ n w. (ok none, w);
  write = λ item w. (ok tt, w);
  delete = λ n w. (ok tt, w);
  commit = λ w. (ok tt, (w.1, w.1));
  rollback = λ w. (ok tt, (w.0, w.0));
  refresh = λ n w. (ok (new_item "desk" none), w);
  count = λ w. (ok none, w);
  page = λ limit offset w. (ok [], w);
}

insert-saved : (b : Bool) (item : DemoItem) (w : World) → saved (insert b item w).1 ≡ saved w
insert-saved true item w = refl
insert-saved false item w = refl

insert-done :
    (b : Bool) (made item : DemoItem) (w : World)
    → (insert b made w).0 ≡ ok item
    → (item.name ≡ made.name) × (pending (insert b made w).1 ≡ add_item item (pending w))
insert-done true made item w h = cc h
insert-done false made item w h =
    (ap (λ i. i.name) (sym (ok-injective h)), ap (λ i. add_item i (pending w)) (ok-injective h))

db-DbLaws : DbLaws db saved pending
db-DbLaws = record {
  insert_item_saved = λ name description. record { at = insert-saved _ _ };
  insert_item_done = λ name description w item h.
      insert-done (name == "lamp") (new_item name description) item w h;
  insert_event_saved = λ event_type payload. record { at = λ w. refl };
  insert_event_done = λ event_type payload w h. refl;
  commit_done = λ w h. refl;
  commit_refused = λ w h. cc h;
  rollback_saved = record { at = λ w. refl };
  refresh_saved = λ n. record { at = λ w. refl };
}

abbrev bare : World
bare = (record { items = []; outbox = [] }, record { items = []; outbox = [] })

abbrev desk : ItemCreate
desk = record { name = "desk"; description = none }

abbrev lamp : ItemCreate
lamp = record { name = "lamp"; description = none }

desk_made : (create_item db desk none bare).0 ≡ ok (new_item "desk" none)
unfolding create_item
desk_made = refl

lamp_refused :
    (create_item db lamp none bare).0 ≡ raised (http 409 "item with name 'lamp' already exists")
unfolding create_item
lamp_refused = refl

create_item_atomic_example :
    Created db saved pending db-DbLaws desk none
      (pending bare)
      (saved (create_item db desk none bare).1)
create_item_atomic_example =
    create_item_atomic db saved pending db-DbLaws desk none bare (new_item "desk" none) desk_made

create_item_refused_example :
    (◌≡◌ {A = ℕ} 409 409) × (saved (create_item db lamp none bare).1 ≡ saved bare)
create_item_refused_example =
    create_item_refused db saved pending db-DbLaws lamp none bare 409
      "item with name 'lamp' already exists" lamp_refused

-- three rows, two to a page
abbrev row : ℕ → String → DemoItem
row id name = record { id = id; name = name; description = none; created_at = "2026-11-25" }

abbrev catalog : List DemoItem
catalog = row 1 "desk" ∷ row 2 "lamp" ∷ row 5 "chair" ∷ []

abbrev shelf : Db (List DemoItem)
shelf = record {
  insert_item = λ name description w. (raised integrity_error, w);
  insert_event = λ event_type payload w. (ok tt, w);
  get = λ n w. (ok none, w);
  write = λ item w. (ok tt, w);
  delete = λ n w. (ok tt, w);
  commit = λ w. (ok tt, w);
  rollback = λ w. (ok tt, w);
  refresh = λ n w. (raised integrity_error, w);
  count = λ w. (ok (some (number_of_items w)), w);
  page = λ limit offset w. (ok (take limit (drop offset w)), w);
}

abbrev two_pages : List ItemList
two_pages =
    record { items = row 1 "desk" ∷ row 2 "lamp" ∷ []; count = 2; total = 3; limit = 2; offset = 0 }
    ∷ record { items = row 5 "chair" ∷ []; count = 1; total = 3; limit = 2; offset = 2 }
    ∷ []
