-- ===== src/Items/Pages.antt =====
-- app/src/main.py: what the pages of the list hold together, asked one after the other.
use aws_devops_sdet_demo.Prelude.{
  ℕ, zero, suc, ◌+◌, ◌≡◌, Option, List, [], ◌∷◌, ◌++◌, Exec, ok, pure, ◌>>=◌,
}
use aws_devops_sdet_demo.Items.{Error, DemoItem, Db, ItemList, list_items, number_of_items, or_zero}

-- `xs[:n]`
abbrev pub take : {A : Type 0} → ℕ → List A → List A
take zero xs = []
take (suc n) [] = []
take (suc n) (x ∷ xs) = x ∷ take n xs

-- `xs[n:]`
abbrev pub drop : {A : Type 0} → ℕ → List A → List A
drop zero xs = xs
drop (suc n) [] = []
drop (suc n) (x ∷ xs) = drop n xs

-- What SELECT ... ORDER BY id LIMIT OFFSET and COUNT read of the rows, in the order of their ids.
pub record PageLaws {W : Type 0} (db : Db W) (rows : W → List DemoItem) : Type 0 where
  pub page_reads :
      (limit offset : ℕ) (w : W) (found : List DemoItem)
      → (db.page limit offset w).0 ≡ ok found
      → found ≡ take limit (drop offset (rows w))
  pub page_keeps : (limit offset : ℕ) (w : W) → rows (db.page limit offset w).1 ≡ rows w
  pub count_reads :
      (w : W) (n : Option ℕ) → (db.count w).0 ≡ ok n → or_zero n ≡ number_of_items (rows w)
  pub count_keeps : (w : W) → rows (db.count w).1 ≡ rows w

-- The items of the pages, in the order of the pages.
abbrev pub all_items : List ItemList → List DemoItem
all_items [] = []
all_items (page ∷ rest) = page.items ++ all_items rest

-- Every page shows the number of all items.
abbrev pub Totals : ℕ → List ItemList → Type 0
Totals n [] = Unit
Totals n (page ∷ rest) = (page.total ≡ n) × Totals n rest

module _ {W : Type 0} (db : Db W) where
  -- A client that asks for one page after the other, from an offset on.
  abbrev pub pages_from : ℕ → ℕ → ℕ → Exec W Error (List ItemList)
  pages_from zero limit offset = pure []
  pages_from (suc n) limit offset = do
    page ← list_items db limit offset
    rest ← pages_from n limit (offset + limit)
    pure (page ∷ rest)

  module _ (rows : W → List DemoItem) (laws : PageLaws db rows) where
    -- one page, and the rows after it
    record Read (limit offset : ℕ) (w v : W) (page : ItemList) : Type 0 where
      held : page.items ≡ take limit (drop offset (rows w))
      total : page.total ≡ number_of_items (rows w)
      same : rows v ≡ rows w
