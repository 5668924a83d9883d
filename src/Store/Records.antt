-- ===== src/Store/Records.antt =====
-- The watchdog's calls of `DynamoDbControlStore`, and the budget alarm's, under DynamoDB's laws.
use aws_devops_sdet_demo.Prelude.{
  ℕ, String, ◌≡◌, refl, is_true, sym, ap, ◌∙◌, inl, inr, true, Option, Item, Exec, ok, ok-injective,
  Outcome-cases, reraise, relabel-ok, pure, ◌>>=◌,
}
use aws_devops_sdet_demo.Control.Interface.{Error}
use aws_devops_sdet_demo.Control.Laws.{RecordLaws, lock_key, sweep_key}
use aws_devops_sdet_demo.Control.Decide.Trace.{engaged}
use aws_devops_sdet_demo.Store.Client.{Client, ClientError, ClientLaws, Row}
use aws_devops_sdet_demo.Store.Dynamodb.{
  plain, dynamodb_control_store, read_lock, read_sweep, note_sweep, clear_sweep, engage_kill_switch,
}
use aws_devops_sdet_demo.Store.Plain.{items}

module _ {W : Type 0} (client : Client W) (rows : W → String → Option Row)
    (laws : ClientLaws client rows) where
  abbrev read_item : String → (ClientError → Error) → Exec W Error (Option Item)
  read_item k f = reraise f (client.get_item k) >>= λ item. pure (plain item)

  read_item-reads :
      (k : String) (f : ClientError → Error) (w : W) (found : Option Item)
      → (read_item k f w).0 ≡ ok found
      → found ≡ items rows w k
  read_item-reads k f w found h = elim (Outcome-cases (client.get_item k w).0) [
    | inl (row, e) ↦ ok-injective (sym (rw e at h)) ∙ ap plain (laws.get_reads k w row e)
    | inr (x, e) ↦ cc (rw e at h)
  ]

  read_item-keeps :
      (k : String) (f : ClientError → Error) (w : W) (j : String)
      → items rows (read_item k f w).1 j ≡ items rows w j
  read_item-keeps k f w j = elim (Outcome-cases (client.get_item k w).0) [
    | inl (row, e) ↦ rw e (ap plain (laws.get_keeps k w j))
    | inr (x, e) ↦ rw e (ap plain (laws.get_keeps k w j))
  ]

  pub dynamodb-RecordLaws : RecordLaws (dynamodb_control_store client) (items rows)
  unfolding read_lock read_sweep note_sweep clear_sweep
  dynamodb-RecordLaws = record {
    read_lock_reads = read_item-reads lock_key _;
    read_lock_keeps = read_item-keeps lock_key _;
    read_sweep_reads = read_item-reads sweep_key _;
    read_sweep_keeps = read_item-keeps sweep_key _;
    note_keeps = λ scope at ttl w j h. ap plain (laws.put_keeps sweep_key _ _ w j h);
    note_written =
        λ scope at ttl w h. ap plain (laws.put_done sweep_key _ _ w (relabel-ok _ _ tt h)).1;
    clear_keeps = λ w j h. ap plain (laws.delete_keeps sweep_key _ w j h);
  }

  -- Once the switch has been engaged, it reads engaged.
  pub engage_kill_switch-engages :
      (reason : String) (now : ℕ) (source : String) (w : W)
      → (engage_kill_switch client reason now source w).0 ≡ ok tt
      → engaged (items rows (engage_kill_switch client reason now source w).1 "killswitch") ≡ true
  unfolding engage_kill_switch is_true
  engage_kill_switch-engages reason now source w h =
      rw (laws.put_done "killswitch" _ _ w (relabel-ok _ _ tt h)).1 refl
